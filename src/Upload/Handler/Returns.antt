-- ===== src/Upload/Handler/Returns.antt =====
-- doServeHTTP of upload/handler.go returns: nothing after parseRequest panics.
use deliverator.Base.{
  ℕ, zero, suc, ◌+◌, ◌≤◌, ◌≡◌, ◌≢◌, ◌∙◌, ap, refl, arith, String, Bool, true, false, not, Option,
  none, some, Outcome, returned, panicked, Option-cases, inl, inr, Bool-cases, if◌then◌else◌,
  is_some, ==-false, ◌>>=◌,
}
use deliverator.Base.Int.{ℤ, pos, pos_part, eq_ℤ}
use deliverator.Util.Bounds.{div_ceil-returned}
use deliverator.Errors.{GoError}
use deliverator.Conf.{Conf, upload_bwlimit_bytes}
use deliverator.Semaphore.{Msemaphore, Wait, acquire}
use deliverator.Semaphore.Laws.{IsCounting}
use deliverator.Semaphore.Units.{KeepCount, acquire-units}
use deliverator.ConnTracker.Tracker.{Sockets}
use deliverator.Upload.Task.{Float64, Task, new_upload_task, start_transfer}
use deliverator.Upload.Parse.{parse_request}
use deliverator.Upload.Parse.Filled.{IsFilled, parse_request-IsFilled}
use deliverator.Upload.Multipart.{Uploader, upload_file_multipart}
use deliverator.Upload.Handler.{
  Handler, Request, Served, target_pace, update_pacing_rate, finish, transfer, after_acquire,
  enqueue, after_parse, do_serve_http,
}
use deliverator.Upload.Handler.Units.{taken, parts-queued, update_pacing_rate-taken}

-- A call that does not panic.
abbrev pub Returns {ℓ} : {A : Type ℓ} → Outcome A → Type ℓ
Returns {A = A} o = (a : A) × (o ≡ returned a)

-- A call that does not panic, and what is done with its result does not either.
>>=-Returns :
    {A B : Type 0} (o : Outcome A) (k : A → Outcome B)
    → Returns o
    → ((a : A) → o ≡ returned a → Returns (k a))
    → Returns (o >>= k)
>>=-Returns (returned a) k r h = h a refl
>>=-Returns (panicked m) k (a, e) h = cc

upload-Returns :
    {F : Type 0} (fl : Float64 F) (c : Conf) (u : Uploader) (open_file : String → Option GoError)
    (t : Task F)
    → IsFilled t
    → Returns (upload_file_multipart fl c u open_file t)
unfolding upload_file_multipart
upload-Returns fl c u open_file t i = elim (Option-cases (open_file i.file)) [
  | inl o ↦ rw (i.has_file, o, i.has_bucket, i.has_key) (_, refl)
  | inr (e, o) ↦ rw (i.has_file, o) (_, refl)
]

enough :
    (e : Option GoError) (n before : ℕ) {parts after : ℕ}
    → e ≡ none
    → parts ≡ n
    → after ≡ before + (if is_some e then 0 else n)
    → parts ≤ after
enough none n b z p a = omega arith
enough (some e) n b z p a = cc

module _ {S : Type 0} (m : Msemaphore S) where
  pub target_pace-Returns : (limit : ℤ) (count : ℕ) → Returns (target_pace m limit count)
  unfolding target_pace
  target_pace-Returns limit zero = (_, refl)
  target_pace-Returns limit (suc k) =
      rw (==-false (suc k) 0 (λ e. cc), div_ceil-returned limit (pos (suc k)) (λ e. cc)) (_, refl)

  pub update_pacing_rate-Returns :
      (s : Sockets) (h : Handler S) → Returns (update_pacing_rate m s h)
  unfolding update_pacing_rate upload_bwlimit_bytes
  update_pacing_rate-Returns s h =
      >>=-Returns (upload_bwlimit_bytes h.conf) _
        (_, div_ceil-returned h.conf.upload_bwlimit.value (pos 8) (λ e. cc))
        (λ limit e. elim (Bool-cases (eq_ℤ limit (pos 0))) [
          | inl z ↦ rw z (_, refl)
          | inr z ↦ rw z (
              >>=-Returns (target_pace m limit _) _ (target_pace-Returns limit _)
                (λ pace e. (_, refl)))
        ])

  module _ (laws : IsCounting m) where
    finish-Returns :
        (n : ℕ) (s : Sockets) (h : Handler S) → n ≤ taken m h → Returns (finish m n s h)
    unfolding finish
    finish-Returns n s h le =
        let (i, e) = laws.leaves h.parallel_uploads.inner n le in
        rw (e, finish) (update_pacing_rate-Returns s _)

    module _ {F : Type 0} (fl : Float64 F) (r : Request S)
        (uploading : (h : Handler S) → taken m (r.others_uploading h) ≡ taken m h) where
      transfer-Returns :
          (t : Task F) (h : Handler S)
          → IsFilled t
          → pos_part t.upload_parts ≤ taken m h
          → Returns (transfer m fl r t h)
      unfolding transfer start_transfer
      transfer-Returns t h i le =
          >>=-Returns (update_pacing_rate m r.sockets_before h) _
            (update_pacing_rate-Returns r.sockets_before h)
            (λ h1 a1.
              >>=-Returns (upload_file_multipart fl h.conf r.uploader r.open_file _) _
                (upload-Returns fl h.conf r.uploader r.open_file _ (record {
                  file = i.file;
                  bucket = i.bucket;
                  key = i.key;
                  has_file = i.has_file;
                  has_bucket = i.has_bucket;
                  has_key = i.has_key;
                }))
                (λ u a2.
                  >>=-Returns (finish m _ r.sockets_after (r.others_uploading h1)) _
                    (finish-Returns _ r.sockets_after (r.others_uploading h1) (
                      omega
                        (arith, uploading h1, update_pacing_rate-taken m r.sockets_before h h1 a1)))
                    (λ h2 a3. (_, refl))))

      after_acquire-Returns :
          (t : Task F) (h : Handler S) (e : Option GoError)
          → IsFilled t
          → (e ≡ none → pos_part t.upload_parts ≤ taken m h)
          → Returns (after_acquire m fl r t h e)
      unfolding after_acquire
      after_acquire-Returns t h none i le = transfer-Returns t h i (le refl)
      after_acquire-Returns t h (some e) i le = (_, refl)

      queued-IsFilled :
          (q : Bool) (t : Task F)
          → IsFilled t
          → IsFilled (if q then record t { upload_queued = true } else t)
      queued-IsFilled true t i = record {
        file = i.file;
        bucket = i.bucket;
        key = i.key;
        has_file = i.has_file;
        has_bucket = i.has_bucket;
        has_key = i.has_key;
      }
      queued-IsFilled false t i = i

      module _ (queued : KeepCount m r.others_queued) where
        enqueue-Returns : (t : Task F) (h : Handler S) → IsFilled t → Returns (enqueue m fl r t h)
        unfolding enqueue
        enqueue-Returns t h i =
            let n : ℕ = pos_part t.upload_parts in
            let wait : Wait S = record {
              others = r.others_queued;
              ctx_err = r.queue_err;
              callback_err = none;
            } in
            let q : Bool = not (is_some (m.enter h.parallel_uploads.inner n)) in
            after_acquire-Returns _ _ (acquire m n wait h.parallel_uploads).1
              (queued-IsFilled q t i)
              (λ e.
                enough (acquire m n wait h.parallel_uploads).1 n (taken m h) e
                  (ap pos_part (parts-queued q t))
                  (acquire-units m laws n wait h.parallel_uploads queued refl))

        parsed-Returns :
            (h : Handler S) (p : Task F × Option GoError)
            → (p.1 ≡ none → IsFilled p.0)
            → Returns (after_parse m fl r h p)
        unfolding after_parse
        parsed-Returns h (t, none) i = enqueue-Returns t h (i refl)
        parsed-Returns h (t, some e) i = (_, refl)

        -- For a part size other than 0: if parseRequest returns, with or without an error, then so
        -- does doServeHTTP, whatever happens to the request in the queue and in its attempts. No nil
        -- pointer is read, no division is by 0, and Release does not panic. The other goroutines'
        -- changes to the number of units taken balance out, and none falls within updatePacingRate.
        pub do_serve_http-Returns :
            (h : Handler S)
            → h.conf.upload_partsize.value ≢ pos 0
            → (p : Task F × Option GoError)
            → parse_request r.form h.conf (new_upload_task fl r.id r.started) ≡ returned p
            → (s : Served m fl) × (do_serve_http m fl r h ≡ returned s)
        unfolding do_serve_http
        do_serve_http-Returns h sized p e =
            >>=-Returns (parse_request r.form h.conf (new_upload_task fl r.id r.started)) _ (p, e)
              (λ p' e'. parsed-Returns h p' (λ n.
                parse_request-IsFilled r.form h.conf (new_upload_task fl r.id r.started) sized p'.0
                  (e' ∙ ap (λ x. returned (p'.0, x)) n)))
