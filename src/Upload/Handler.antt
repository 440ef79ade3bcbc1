-- ===== src/Upload/Handler.antt =====
-- S3ndHandler of upload/handler.go: updatePacingRate and doServeHTTP.
pub mod Pacing
pub mod Units
pub mod Returns
pub mod Samples
mod Examples
use deliverator.Base.{
  ℕ, String, Bool, true, not, Option, none, some, List, [], ◌∷◌, Outcome, returned, panicked, ◌>>=◌,
  ◌==◌, is_some, if◌then◌else◌,
}
use deliverator.Base.Int.{ℤ, pos, pos_part, eq_ℤ, uint64}
use deliverator.Util.{div_ceil}
use deliverator.Errors.{
  GoError, sentinel, wrap, join, is, upload_queue_timeout, upload_aborted, context_canceled,
}
use deliverator.Conf.{Conf, upload_bwlimit_bytes}
use deliverator.Semaphore.{Msemaphore, Semaphore, Wait, new_semaphore, acquire, release}
use deliverator.ConnTracker.Tracker.{ConnTracker, new_conn_tracker, Sockets, set_pacing_rate}
use deliverator.Upload.Task.{
  Float64, Time, Task, new_upload_task, start_transfer, stop, stop_no_upload,
}
use deliverator.Upload.Metrics.{Event}
use deliverator.Upload.Metrics
use deliverator.Upload.Parse.{Form, parse_request}
use deliverator.Upload.Multipart.{Uploader, upload_file_multipart}

-- S3ndHandler, without the clients of the S3 libraries.
pub record Handler (S : Type 0) : Type 0 where
  pub conf : Conf
  pub parallel_uploads : Semaphore S
  pub conn_tracker : ConnTracker

-- What one request meets: the readings of the clock, the new id, the form, what happens while it is
-- queued and the cause for which its queue context ended, the file, the uploader, the sockets at the
-- two updates of the pacing rate, and what other goroutines do to the connections while it is queued
-- and to the handler while it uploads.
pub record Request (S : Type 0) : Type 0 where
  pub id : ℕ
  pub started : Time
  pub transfer_started : Time
  pub ended : Time
  pub form : Form
  pub others_queued : List (Semaphore S → Semaphore S)
  pub tracker_queued : ConnTracker → ConnTracker
  pub queue_err : GoError
  pub queue_cause : GoError
  pub open_file : String → Option GoError
  pub uploader : Uploader
  pub others_uploading : Handler S → Handler S
  pub sockets_before : Sockets
  pub sockets_after : Sockets

-- Why Acquire failed.
unfoldable pub queue_error : GoError → GoError → GoError
queue_error cause err =
    if is cause upload_queue_timeout
    then join (sentinel upload_queue_timeout) err
    else if is err context_canceled
    then join (sentinel upload_aborted) err
    else wrap err "unable to acquire upload queue semaphore"

module _ {S : Type 0} (m : Msemaphore S) where
  -- The state that NewS3ndHandler makes with a semaphore, up to the first update of the pacing rate.
  abbrev pub new_handler : Conf → (ℕ → ℕ) → Semaphore S → Handler S
  new_handler c rates sem = record {
    conf = c;
    parallel_uploads = sem;
    conn_tracker = new_conn_tracker rates;
  }

  -- The rate for a limit in bytes per second that is not 0, and a number of active parts.
  unfoldable pub target_pace : ℤ → ℕ → Outcome ℕ
  target_pace limit count =
      if count == 0
      then returned (uint64 limit)
      else do share ← div_ceil limit (pos count); returned (uint64 share)

  -- updatePacingRate. An error of SetPacingRate is only logged.
  unfoldable pub update_pacing_rate : Sockets → Handler S → Outcome (Handler S)
  update_pacing_rate s h = do
    limit ← upload_bwlimit_bytes h.conf
    if eq_ℤ limit (pos 0) then returned h else do
      pace ← target_pace limit (m.get_count h.parallel_uploads.inner)
      returned (record h { conn_tracker = (set_pacing_rate s pace h.conn_tracker).0 })

  -- NewS3ndHandler, but for the clients of the S3 libraries.
  unfoldable pub new_s3nd_handler : Sockets → Conf → (ℕ → ℕ) → Outcome (Handler S)
  new_s3nd_handler s c rates = do
    sem ← new_semaphore m c.upload_max_parallel
    update_pacing_rate s (new_handler c rates sem)

  -- The deferred calls: Release, and then updatePacingRate.
  unfoldable pub finish : ℕ → Sockets → Handler S → Outcome (Handler S)
  finish n s h = elim (release m n h.parallel_uploads) [
    | none ↦ panicked "semaphore: release of more than was acquired"
    | some sem ↦ update_pacing_rate s (record h { parallel_uploads = sem })
  ]

  module _ {F : Type 0} (fl : Float64 F) where
    -- The handler, the task, the metrics counted, and the error.
    abbrev pub Served : Type 0
    Served = Handler S × Task F × List (Event F) × Option GoError

    abbrev pub stopped : Time → Option GoError → Task F → Task F
    stopped now none t = stop fl now t
    stopped now (some e) t = stop_no_upload fl now t

    -- doServeHTTP, from the time that the semaphore is acquired.
    unfoldable pub transfer : Request S → Task F → Handler S → Outcome Served
    transfer r t h = do
      h' ← update_pacing_rate r.sockets_before h
      (t', es, e) ←
          upload_file_multipart fl h.conf r.uploader r.open_file
            (start_transfer r.transfer_started t)
      h'' ← finish (pos_part t.upload_parts) r.sockets_after (r.others_uploading h')
      returned (h'', stopped r.ended e t', Metrics.valid_request ∷ es, e)

    -- doServeHTTP, from the return of Acquire on.
    unfoldable pub after_acquire : Request S → Task F → Handler S → Option GoError → Outcome Served
    after_acquire r t h none = transfer r t h
    after_acquire r t h (some e) = returned (
      h,
      stop_no_upload fl r.ended t,
      Metrics.valid_request ∷ [],
      some (queue_error r.queue_cause e),
    )

    -- The part of doServeHTTP that acquires the semaphore. `logWait` marks the task as queued, and
    -- is called if there is no room at once.
    unfoldable pub enqueue : Request S → Task F → Handler S → Outcome Served
    enqueue r t h =
        let n : ℕ = pos_part t.upload_parts in
        let queued : Bool = not (is_some (m.enter h.parallel_uploads.inner n)) in
        let wait : Wait S = record {
          others = r.others_queued;
          ctx_err = r.queue_err;
          callback_err = none;
        } in
        let (sem, err) = acquire m n wait h.parallel_uploads in
        after_acquire r (if queued then record t { upload_queued = true } else t)
          (record h {
            parallel_uploads = sem;
            conn_tracker = if queued then r.tracker_queued h.conn_tracker else h.conn_tracker;
          })
          err

    -- doServeHTTP, from the return of parseRequest on.
    unfoldable pub after_parse : Request S → Handler S → Task F × Option GoError → Outcome Served
    after_parse r h (t, none) = enqueue r t h
    after_parse r h (t, some err) = returned (h, stop_no_upload fl r.ended t, [], some err)

    -- doServeHTTP.
    unfoldable pub do_serve_http : Request S → Handler S → Outcome Served
    do_serve_http r h =
        parse_request r.form h.conf (new_upload_task fl r.id r.started) >>= after_parse r h
