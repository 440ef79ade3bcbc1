-- ===== src/Upload/Serve/Responses.antt =====
-- ServeHTTP of upload/handler.go as a whole: one answer and one count for every request.
use deliverator.Upload.Parse.{deref, parse_request}
use deliverator.Base.{
  Option-cases, inl, inr, returned-injective, ℕ, zero, suc, ◌+◌, ◌≡◌, ◌∙◌, sym, ap, refl, arith,
  String, Option, none, some, List, [], ◌∷◌, ◌++◌, Outcome, returned, >>=-eq-returned, ◌==◌,
  if◌then◌else◌, total, total-append,
}
use deliverator.Base.Int.{ℤ}
use deliverator.Errors.{GoError}
use deliverator.Conf.{Conf}
use deliverator.Semaphore.{Msemaphore}
use deliverator.Upload.Task.{Float64, Task}
use deliverator.Upload.Metrics.{Event}
use deliverator.Upload.Metrics
use deliverator.Upload.Multipart.{
  Uploader, Verdict, succeed, give_up, go_on, Uploaded, counted as attempt_counted, resume,
  attempts, upload_file_multipart,
}
use deliverator.Upload.Handler.{
  Handler, Request, Served, update_pacing_rate, finish, transfer, enqueue, after_acquire,
  after_parse, do_serve_http,
}
use deliverator.Upload.Serve.{status_code, aws_error, request_counted, counted}

-- 1 for a count of an HTTP response to a client with the code.
abbrev pub is_request : {F : Type 0} → ℕ → Event F → ℕ
is_request code (Metrics.requests_total c) = if c == code then 1 else 0
is_request code _ = 0

-- 1 for a count of an HTTP response to a client.
abbrev pub is_any_request : {F : Type 0} → Event F → ℕ
is_any_request (Metrics.requests_total c) = 1
is_any_request _ = 0

abbrev pub requests_total : {F : Type 0} → List (Event F) → ℕ
requests_total es = total is_any_request es

attempt_counted-silent : (F : Type 0) (k : ℕ) → requests_total (attempt_counted {F = F} k) ≡ 0
attempt_counted-silent F k = ground arith

module _ {F : Type 0} where
  pub requests-append :
      (es fs : List (Event F)) → requests_total (es ++ fs) ≡ requests_total es + requests_total fs
  requests-append es fs = total-append is_any_request es fs

  pub silent-labels :
      (code : ℕ) (es : List (Event F)) → requests_total es ≡ 0 → total (is_request code) es ≡ 0
  silent-labels code [] h = refl
  silent-labels code (x ∷ es) h = ground (arith, silent-labels code es)

  resume-silent :
      (tries : ℤ) (k : ℕ) (t : Task F) (rest : Uploaded F) (v : Verdict)
      → requests_total rest.1 ≡ 0
      → requests_total (resume tries k t rest v).1 ≡ 0
  unfolding resume
  resume-silent tries k t rest succeed h = attempt_counted-silent F k
  resume-silent tries k t rest (give_up e) h = attempt_counted-silent F k
  resume-silent tries k t rest (go_on e msg) h =
      ground (arith, attempt_counted-silent F k, requests-append (attempt_counted k) rest.1)

  attempts-silent :
      (fl : Float64 F) (c : Conf) (u : Uploader) (bucket key : String) (left k : ℕ) (t : Task F)
      → requests_total (attempts fl c u bucket key left k t).1 ≡ 0
  unfolding attempts
  attempts-silent fl c u bucket key zero k t = refl
  attempts-silent fl c u bucket key (suc left) k t =
      resume-silent c.upload_tries k _ _ _ (attempts-silent fl c u bucket key left (k + 1) t)

  returned-silent :
      (r r' : Uploaded F)
      → requests_total r'.1 ≡ 0
      → ◌≡◌ {A = Outcome (Uploaded F)} (returned r') (returned r)
      → requests_total r.1 ≡ 0
  returned-silent r r' z h = ap (λ x. requests_total x.1) (sym (returned-injective h)) ∙ z

  upload-silent :
      (fl : Float64 F) (c : Conf) (u : Uploader) (open_file : String → Option GoError) (t : Task F)
      (r : Uploaded F)
      → upload_file_multipart fl c u open_file t ≡ returned r
      → requests_total r.1 ≡ 0
  unfolding upload_file_multipart
  upload-silent fl c u open_file t r h =
      let (file, _, h1) = >>=-eq-returned (deref t.file) _ h in
      elim (Option-cases (open_file file)) [
        | inr (e, o) ↦ returned-silent r _ refl (rw o at h1)
        | inl o ↦
            let (bucket, _, h2) = >>=-eq-returned (deref t.bucket) _ (rw o at h1) in
            let (key, _, h3) = >>=-eq-returned (deref t.key) _ h2 in
            returned-silent r _ (attempts-silent fl c u bucket key _ 1 t) h3
      ]

module _ {S : Type 0} (m : Msemaphore S) {F : Type 0} (fl : Float64 F) where
  -- A result of doServeHTTP whose metrics count no response.
  abbrev pub Silent : Outcome (Served m fl) → Type 0
  Silent x = (s : Served m fl) → x ≡ returned s → requests_total s.2 ≡ 0

  returned-Silent : (s : Served m fl) → requests_total s.2 ≡ 0 → Silent (returned s)
  returned-Silent s z s' h = ap (λ x. requests_total x.2) (sym (returned-injective h)) ∙ z

  transfer-Silent : (r : Request S) (t : Task F) (h : Handler S) → Silent (transfer m fl r t h)
  unfolding transfer
  transfer-Silent r t h s e =
      let (h', _, e1) = >>=-eq-returned (update_pacing_rate m r.sockets_before h) _ e in
      let (u, eu, e2) =
        >>=-eq-returned (upload_file_multipart fl h.conf r.uploader r.open_file _) _ e1 in
      let (h'', _, e3) =
        >>=-eq-returned (finish m _ r.sockets_after (r.others_uploading h')) _ e2 in
      returned-Silent _ (omega (arith, upload-silent fl h.conf r.uploader r.open_file _ u eu)) s e3

  after_acquire-Silent :
      (r : Request S) (t : Task F) (h : Handler S) (e : Option GoError)
      → Silent (after_acquire m fl r t h e)
  unfolding after_acquire
  after_acquire-Silent r t h none = transfer-Silent r t h
  after_acquire-Silent r t h (some e) = returned-Silent _ refl

  after_parse-Silent :
      (r : Request S) (h : Handler S) (p : Task F × Option GoError)
      → Silent (after_parse m fl r h p)
  unfolding after_parse enqueue
  after_parse-Silent r h (t, none) = after_acquire-Silent r _ _ _
  after_parse-Silent r h (t, some e) = returned-Silent _ refl

  pub do_serve_http-Silent : (r : Request S) (h : Handler S) → Silent (do_serve_http m fl r h)
  unfolding do_serve_http
  do_serve_http-Silent r h s e =
      let (p, _, e1) = >>=-eq-returned (parse_request r.form h.conf _) _ e in
      after_parse-Silent r h p s e1

  pub counted-once :
      (t : Task F) (e : Option GoError)
      → (requests_total (counted m fl t e) ≡ 1)
        × (total (is_request (status_code e)) (counted m fl t e) ≡ 1)
  unfolding counted request_counted aws_error
  counted-once t none = ground arith
  counted-once t (some e) = ground arith
