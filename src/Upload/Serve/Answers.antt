-- ===== src/Upload/Serve/Answers.antt =====
-- ServeHTTP of upload/handler.go: what the answer says, and the requests that are turned down.
use deliverator.Base.{
  ◌≡◌, ◌↔◌, refl, arith, String, Option, none, some, List, ◌++◌, returned, >>=-eq-returned,
  returned-injective, ◌==◌, if◌then◌else◌, total, total-append, subst,
}
use deliverator.Errors.{GoError, error_text}
use deliverator.Semaphore.{Msemaphore}
use deliverator.Upload.Task.{Float64, Task, new_upload_task, stop_no_upload}
use deliverator.Upload.Metrics.{Event}
use deliverator.Upload.Parse.{parse_request}
use deliverator.Upload.Parse.Validity.{parse_request-BadRequest}
use deliverator.Upload.Handler.{Handler, Request, Served, after_parse, do_serve_http}
use deliverator.Upload.Serve.{Response, status_code, message, respond, counted, serve_http}
use deliverator.Upload.Serve.Responses.{
  is_request, requests_total, requests-append, silent-labels, do_serve_http-Silent, counted-once,
}

status_code-success : (e : Option GoError) → (status_code e ≡ 200) ↔ (e ≡ none)
unfolding status_code
status_code-success none = ground arith
status_code-success (some e) = ground arith

module _ {S : Type 0} (m : Msemaphore S) {F : Type 0} (fl : Float64 F) where
  -- What an answer says about the error e of the request.
  pub record Answers (s : Served m fl) (h : Handler S) (resp : Response F) (es : List (Event F))
      : Type 0 where
    pub handler : h ≡ s.0
    pub success : (resp.status ≡ 200) ↔ (s.3 ≡ none)
    pub code : resp.status ≡ status_code s.3
    pub same_code : resp.body.code ≡ resp.status
    pub text : resp.body.msg ≡ message s.3
    pub header : resp.x_error ≡ (if resp.status == 200 then none else some resp.body.msg)
    pub task : resp.body.task ≡ s.1
    pub counted_one : requests_total es ≡ 1
    pub counted_code : total (is_request resp.status) es ≡ 1

  answers :
      (version : String) (s : Served m fl)
      → requests_total s.2 ≡ 0
      → Answers s s.0 (respond version s.1 s.3) (s.2 ++ counted m fl s.1 s.3)
  unfolding respond
  answers version s silent = record {
    handler = refl;
    success = status_code-success s.3;
    code = refl;
    same_code = refl;
    text = refl;
    header = refl;
    task = refl;
    counted_one =
        omega (arith, requests-append s.2 (counted m fl s.1 s.3), (counted-once m fl s.1 s.3).0);
    counted_code = omega (
      arith,
      total-append (is_request (status_code s.3)) s.2 (counted m fl s.1 s.3),
      silent-labels (status_code s.3) s.2 silent,
      (counted-once m fl s.1 s.3).1,
    );
  }

  -- Whenever ServeHTTP returns, doServeHTTP has returned a handler, a task and an error, and the
  -- answer stands for these: the handler is that one; the status is 200 exactly when there is no
  -- error, and else the code of the error; the body has the same code, the error's text and the
  -- task; the x-error header is that text, and only missing with status 200; and of all the metrics
  -- counted, exactly one counts a response to the client, and it has the code of the status.
  pub serve_http-Answers :
      (r : Request S) (h h' : Handler S) (resp : Response F) (es : List (Event F))
      → serve_http m fl r h ≡ returned (h', resp, es)
      → (s : Served m fl) × (do_serve_http m fl r h ≡ returned s) × Answers s h' resp es
  unfolding serve_http
  serve_http-Answers r h h' resp es e =
      let (s, es1, e1) = >>=-eq-returned (do_serve_http m fl r h) _ e in
      (
        s,
        es1,
        subst (λ x. Answers s x.0 x.1 x.2) (returned-injective e1)
            (answers h.conf.version s (do_serve_http-Silent m fl r h s es1)),
      )

  -- A request that parseRequest turns down is answered with 400 and the error's text, and leaves the
  -- handler as it was: no unit of the semaphore and no connection is touched.
  pub serve_http-bad_request :
      (r : Request S) (h : Handler S) (u : Task F) (e : GoError)
      → parse_request r.form h.conf (new_upload_task fl r.id r.started) ≡ returned (u, some e)
      → (resp : Response F) × (es : List (Event F)) × (serve_http m fl r h ≡ returned (h, resp, es))
        × (resp.status ≡ 400)
        × (resp.x_error ≡ some (error_text e))
  unfolding serve_http do_serve_http after_parse respond status_code
  serve_http-bad_request r h u e parsed =
      let bad =
        parse_request-BadRequest r.form h.conf (new_upload_task fl r.id r.started) u e parsed in
      (
        respond h.conf.version (stop_no_upload fl r.ended u) (some e),
        counted m fl (stop_no_upload fl r.ended u) (some e),
        rw parsed,
        rw bad,
        rw bad,
      )
