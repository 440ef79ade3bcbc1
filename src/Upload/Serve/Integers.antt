-- ===== src/Upload/Serve/Integers.antt =====
-- The integers of the task that ServeHTTP of upload/handler.go answers with, on every path.
use deliverator.Base.{
  Holds, returns, bind-Holds, any-Holds, ◌+◌, ◌^◌, ◌<◌, ◌≡◌, refl, subst, arith, String, Bool, true,
  false, not, Option, none, some, returned, is_some, if◌then◌else◌,
}
use deliverator.Base.Int.{pos_part}
use deliverator.Errors.{GoError}
use deliverator.Semaphore.{Msemaphore}
use deliverator.Upload.Task.{Float64, Task, new_upload_task, start_transfer}
use deliverator.Upload.Task.Integers.{IsInt64, same-IsInt64, stop-IsInt64, stop_no_upload-IsInt64}
use deliverator.Upload.Handler.{
  Handler, Request, Served, update_pacing_rate, finish, stopped, transfer, after_acquire, enqueue,
  after_parse, do_serve_http,
}
use deliverator.Upload.Parse.Integers.{IsSize, Parsed, parse_request-Parsed}
use deliverator.Upload.Multipart.Integers.{upload-Transferred}

module _ {F : Type 0} where
  module _ {S : Type 0} (m : Msemaphore S) (fl : Float64 F) (r : Request S) where
    abbrev Answered : Served m fl → Type 0
    Answered s = IsInt64 s.1

    stopped-IsInt64 :
        (e : Option GoError) (t : Task F) → IsInt64 t → IsInt64 (stopped m fl r.ended e t)
    stopped-IsInt64 none t i = stop-IsInt64 fl r.ended t i
    stopped-IsInt64 (some e) t i = stop_no_upload-IsInt64 fl r.ended t i

    transfer-Answered :
        (t : Task F) (h : Handler S)
        → pos_part h.conf.upload_tries + 1 < 2 ^ 63
        → IsInt64 t
        → Holds Answered (transfer m fl r t h)
    unfolding transfer start_transfer
    transfer-Answered t h few i =
        bind-Holds (any-Holds (update_pacing_rate m r.sockets_before h)) (λ h' u.
          bind-Holds
            (upload-Transferred fl h.conf r.uploader r.open_file
              (start_transfer r.transfer_started t) few (same-IsInt64 t _ refl i))
            (λ up j.
              bind-Holds (any-Holds (finish m _ r.sockets_after (r.others_uploading h')))
                (λ h'' w. returns (stopped-IsInt64 up.2 up.0 j))))

    after_acquire-Answered :
        (t : Task F) (h : Handler S) (e : Option GoError)
        → pos_part h.conf.upload_tries + 1 < 2 ^ 63
        → IsInt64 t
        → Holds Answered (after_acquire m fl r t h e)
    unfolding after_acquire
    after_acquire-Answered t h none few i = transfer-Answered t h few i
    after_acquire-Answered t h (some e) few i = returns (stop_no_upload-IsInt64 fl r.ended t i)

    queued-IsInt64 :
        (q : Bool) (t : Task F)
        → IsInt64 t
        → IsInt64 (if q then record t { upload_queued = true } else t)
    queued-IsInt64 true t i = same-IsInt64 t _ refl i
    queued-IsInt64 false t i = i

    enqueue-Answered :
        (t : Task F) (h : Handler S)
        → pos_part h.conf.upload_tries + 1 < 2 ^ 63
        → IsInt64 t
        → Holds Answered (enqueue m fl r t h)
    unfolding enqueue
    enqueue-Answered t h few i =
        let q = not (is_some (m.enter h.parallel_uploads.inner (pos_part t.upload_parts))) in
        after_acquire-Answered _ _ _ few (queued-IsInt64 q t i)

    module _ (h : Handler S) (few : pos_part h.conf.upload_tries + 1 < 2 ^ 63)
        (sizes : (file : String) → IsSize (r.form.stat file)) where
      after_parse-Answered :
          (x : Task F × Option GoError) → Parsed x → Holds Answered (after_parse m fl r h x)
      unfolding after_parse
      after_parse-Answered (t, none) i = enqueue-Answered t h few i
      after_parse-Answered (t, some e) i = returns (stop_no_upload-IsInt64 fl r.ended t i)

      new-IsInt64 : IsInt64 (new_upload_task fl r.id r.started)
      unfolding new_upload_task
      new-IsInt64 = record {
        attempts = (omega arith, omega arith);
        size = (omega arith, omega arith);
        parts = (omega arith, omega arith);
      }

      do_serve_http-Answered : Holds Answered (do_serve_http m fl r h)
      unfolding do_serve_http
      do_serve_http-Answered =
          bind-Holds (parse_request-Parsed r.form sizes h.conf _ new-IsInt64) after_parse-Answered

      -- If the sizes of files are int64, and the tries fewer than the largest, then so are the
      -- integers of every task that doServeHTTP returns, however the request ends.
      pub do_serve_http-IsInt64 :
          (s : Served m fl) → do_serve_http m fl r h ≡ returned s → IsInt64 s.1
      do_serve_http-IsInt64 s e = elim (subst (Holds Answered) e do_serve_http-Answered) [
        | returns i ↦ i
      ]
