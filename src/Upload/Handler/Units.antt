-- ===== src/Upload/Handler/Units.antt =====
-- Every unit of the semaphore that doServeHTTP of upload/handler.go acquires is given back, on every
-- path.
use deliverator.Base.{
  ℕ, ◌+◌, ◌≡◌, ◌≢◌, String, Bool, true, false, not, sym, ap, refl, arith, Option, none, some,
  returned, panicked, >>=-eq-returned, returned-injective, Option-cases, inl, inr, Bool-cases,
  if◌then◌else◌, is_some,
}
use deliverator.Base.Int.{pos, pos_part, eq_ℤ}
use deliverator.Errors.{GoError}
use deliverator.Conf.{upload_bwlimit_bytes}
use deliverator.Semaphore.{Msemaphore, Wait, acquire}
use deliverator.Semaphore.Laws.{IsCounting}
use deliverator.Semaphore.Units.{count, KeepCount, acquire-units}
use deliverator.ConnTracker.Tracker.{Sockets}
use deliverator.Upload.Task.{Float64, Task}
use deliverator.Upload.Parse.{parse_request}
use deliverator.Upload.Multipart.{upload_file_multipart}
use deliverator.Upload.Handler.{
  Handler, Request, Served, target_pace, update_pacing_rate, finish, transfer, after_acquire,
  enqueue, after_parse, do_serve_http,
}

pub parts-queued :
    {F : Type 0} (q : Bool) (t : Task F)
    → (if q then record t { upload_queued = true } else t).upload_parts ≡ t.upload_parts
parts-queued true t = refl
parts-queued false t = refl

units-balance :
    (e : Option GoError) (n : ℕ) {parts after between before : ℕ}
    → parts ≡ n
    → after + (if is_some e then 0 else parts) ≡ between
    → between ≡ before + (if is_some e then 0 else n)
    → after ≡ before
units-balance none n p a b = omega arith
units-balance (some e) n p a b = omega arith

module _ {S : Type 0} (m : Msemaphore S) where
  -- The units that are taken.
  abbrev pub taken : Handler S → ℕ
  taken h = count m h.parallel_uploads

  pub update_pacing_rate-taken :
      (s : Sockets) (h h' : Handler S) → update_pacing_rate m s h ≡ returned h' → taken h' ≡ taken h
  unfolding update_pacing_rate
  update_pacing_rate-taken s h h' e =
      let (limit, _, e1) = >>=-eq-returned (upload_bwlimit_bytes h.conf) _ e in
      elim (Bool-cases (eq_ℤ limit (pos 0))) [
        | inl z ↦ ap taken (sym (returned-injective (rw z at e1)))
        | inr z ↦
            let (pace, _, e2) = >>=-eq-returned (target_pace m limit _) _ (rw z at e1) in
            ap taken (sym (returned-injective e2))
      ]

  panicked-not-returned : (msg : String) (h : Handler S) → panicked msg ≢ returned h
  panicked-not-returned msg h e = cc

  module _ (laws : IsCounting m) where
    finish-taken :
        (n : ℕ) (s : Sockets) (h h' : Handler S)
        → finish m n s h ≡ returned h'
        → taken h' + n ≡ taken h
    unfolding finish
    finish-taken n s h h' e = elim (Option-cases (m.leave h.parallel_uploads.inner n)) [
      | inl x ↦ absurd (panicked-not-returned _ h' (rw (x, finish) at e))
      | inr (i, x) ↦ omega (
        arith,
        update_pacing_rate-taken s _ h' (rw (x, finish) at e),
        laws.left h.parallel_uploads.inner i n x,
      )
    ]

    module _ {F : Type 0} (fl : Float64 F) (r : Request S)
        (uploading : (h : Handler S) → taken (r.others_uploading h) ≡ taken h) where
      transfer-taken :
          (t : Task F) (h : Handler S) (s : Served m fl)
          → transfer m fl r t h ≡ returned s
          → taken s.0 + pos_part t.upload_parts ≡ taken h
      unfolding transfer
      transfer-taken t h s e =
          let (h1, a1, e1) = >>=-eq-returned (update_pacing_rate m r.sockets_before h) _ e in
          let (u, _, e2) =
            >>=-eq-returned (upload_file_multipart fl h.conf r.uploader r.open_file _) _ e1 in
          let (h2, a2, e3) =
            >>=-eq-returned (finish m _ r.sockets_after (r.others_uploading h1)) _ e2 in
          omega (
            arith,
            ap (λ x. taken x.0) (returned-injective e3),
            finish-taken _ r.sockets_after _ h2 a2,
            uploading h1,
            update_pacing_rate-taken r.sockets_before h h1 a1,
          )

      after_acquire-taken :
          (t : Task F) (h : Handler S) (e : Option GoError) (s : Served m fl)
          → after_acquire m fl r t h e ≡ returned s
          → taken s.0 + (if is_some e then 0 else pos_part t.upload_parts) ≡ taken h
      unfolding after_acquire
      after_acquire-taken t h none s eq = transfer-taken t h s eq
      after_acquire-taken t h (some e) s eq =
          omega (arith, ap (λ x. taken x.0) (returned-injective eq))

      module _ (queued : KeepCount m r.others_queued) where
        enqueue-taken :
            (t : Task F) (h : Handler S) (s : Served m fl)
            → enqueue m fl r t h ≡ returned s
            → taken s.0 ≡ taken h
        unfolding enqueue
        enqueue-taken t h s e =
            let n : ℕ = pos_part t.upload_parts in
            let wait : Wait S = record {
              others = r.others_queued;
              ctx_err = r.queue_err;
              callback_err = none;
            } in
            let q : Bool = not (is_some (m.enter h.parallel_uploads.inner n)) in
            units-balance (acquire m n wait h.parallel_uploads).1 n (ap pos_part (parts-queued q t))
              (after_acquire-taken _ _ (acquire m n wait h.parallel_uploads).1 s e)
              (acquire-units m laws n wait h.parallel_uploads queued refl)

        parsed-taken :
            (h : Handler S) (p : Task F × Option GoError) (s : Served m fl)
            → after_parse m fl r h p ≡ returned s
            → taken s.0 ≡ taken h
        unfolding after_parse
        parsed-taken h (t, none) s e = enqueue-taken t h s e
        parsed-taken h (t, some err) s e = ap (λ x. taken x.0) (sym (returned-injective e))

        -- doServeHTTP, whenever it returns, leaves as many units taken as it found, whether the
        -- request is malformed, fails in the queue, fails in its attempts or succeeds, when what the
        -- other goroutines do meanwhile balances out.
        pub do_serve_http-units :
            (h : Handler S) (s : Served m fl)
            → do_serve_http m fl r h ≡ returned s
            → taken s.0 ≡ taken h
        unfolding do_serve_http after_parse
        do_serve_http-units h s e =
            let (p, _, e1) = >>=-eq-returned (parse_request r.form h.conf _) _ e in
            parsed-taken h p s e1
