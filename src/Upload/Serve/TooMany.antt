-- ===== src/Upload/Serve/TooMany.antt =====
-- A request for a file with more parts than the semaphore of upload/handler.go has units.
use deliverator.Base.{
  ℕ, ◌<◌, ◌≡◌, ◌∙◌, ap, refl, arith, true, Option, none, some, List, ◌++◌, returned, total-append,
}
use deliverator.Base.Int.{pos_part}
use deliverator.Errors.{GoError, is, upload_queue_timeout}
use deliverator.Semaphore.{Msemaphore, Wait}
use deliverator.Semaphore.Laws.{IsCounting}
use deliverator.Semaphore.Acquire.{KeepLimit, acquire-fails}
use deliverator.Upload.Task.{Float64, Task, new_upload_task}
use deliverator.Upload.Metrics.{Event}
use deliverator.Upload.Parse.{parse_request}
use deliverator.Upload.Multipart.Decision.{is_attempt, attempts_total}
use deliverator.Upload.Handler.{
  Handler, Request, Served, queue_error, after_acquire, enqueue, after_parse, do_serve_http,
}
use deliverator.Upload.Serve.{
  Response, status_code, respond, aws_error, request_counted, counted, serve_http,
}
use deliverator.Upload.Serve.Codes.{IsForeign, queue_code}

module _ {S : Type 0} (m : Msemaphore S) {F : Type 0} (fl : Float64 F) where
  counted-no_attempts : (t : Task F) (e : Option GoError) → attempts_total (counted m fl t e) ≡ 0
  unfolding counted request_counted aws_error
  counted-no_attempts t none = ground arith
  counted-no_attempts t (some e) = ground arith

  module _ (laws : IsCounting m) (r : Request S) (h : Handler S) (u : Task F) (limit : ℕ)
      (limited : m.get_limit h.parallel_uploads.inner ≡ limit)
      (above : limit < pos_part u.upload_parts) (others : KeepLimit m r.others_queued)
      (foreign : IsForeign r.queue_err)
      (expired : is r.queue_cause upload_queue_timeout ≡ true) where
    enqueue-times_out :
        (s : Served m fl) × (enqueue m fl r u h ≡ returned s)
        × (s.3 ≡ some (queue_error r.queue_cause r.queue_err))
        × (attempts_total s.2 ≡ 0)
    unfolding enqueue after_acquire
    enqueue-times_out =
        let n : ℕ = pos_part u.upload_parts in
        let wait : Wait S = record {
          others = r.others_queued;
          ctx_err = r.queue_err;
          callback_err = none;
        } in
        rw (enqueue, acquire-fails m laws limit n above wait h.parallel_uploads others limited refl)
          (_, refl, refl, refl)

    -- An accepted request for a file with more parts than the limit of the semaphore never gets to
    -- its upload: when its time in the queue is up, it is answered with 408, whatever the other
    -- goroutines release, and no attempt is made.
    pub serve_http-too_many_parts :
        parse_request r.form h.conf (new_upload_task fl r.id r.started) ≡ returned (u, none)
        → (h' : Handler S) × (resp : Response F) × (es : List (Event F)) × (serve_http m fl r h
            ≡ returned (h', resp, es))
          × (resp.status ≡ 408)
          × (attempts_total es ≡ 0)
    unfolding serve_http do_serve_http after_parse respond
    serve_http-too_many_parts accepted =
        let (s, e, timed_out, quiet) = enqueue-times_out in
        (
          s.0,
          respond h.conf.version s.1 s.3,
          s.2 ++ counted m fl s.1 s.3,
          rw (accepted, e),
          ap status_code timed_out ∙ (queue_code r.queue_cause r.queue_err foreign).0 expired,
          omega (
            arith,
            total-append is_attempt s.2 (counted m fl s.1 s.3),
            counted-no_attempts s.1 s.3,
            quiet,
          ),
        )
