-- ===== src/Upload/Serve/Run.antt =====
-- Test data: the run of ServeHTTP on the sample request.
use deliverator.Base.{◌≡◌, refl, List, returned}
use deliverator.Base.Int.{ℤ, wrap64}
use deliverator.Semaphore.{acquire}
use deliverator.Util.{div_ceil}
use deliverator.Conf.{upload_bwlimit_bytes}
use deliverator.ConnTracker.Tracker.{set_pacing_rate, set_each, new_conn_tracker}
use deliverator.Semaphore.Laws.{Counter, counter}
use deliverator.Upload.Task.{new_upload_task, start_transfer, stop, time_sub}
use deliverator.Upload.Metrics.{Event}
use deliverator.Upload.Samples.{whole}
use deliverator.Upload.Multipart.{judge, upload_file_multipart, attempts, resume}
use deliverator.Upload.Parse.{
  parse_request, parse_file, parse_uri, parse_slug, parse_size, is_abs, drop_slash,
}
use deliverator.Upload.Handler.{
  Handler, do_serve_http, after_parse, enqueue, after_acquire, transfer, update_pacing_rate,
  target_pace, finish,
}
use deliverator.Upload.Handler.Samples.{handler, request}
use deliverator.Upload.Serve.{Response, status_code, serve_http, counted, respond, request_counted}

-- The run of a request that succeeds, and leaves the whole limit of 10 bytes per second.
abbrev pub run :
    (r : Handler Counter × Response ℤ × List (Event ℤ)) × (serve_http counter whole request handler
      ≡ returned r)
    × (r.1.status ≡ 200)
    × (r.0.conn_tracker.upload_pace ≡ 10)
unfolding serve_http do_serve_http after_parse parse_request parse_file parse_uri parse_slug
    parse_size is_abs drop_slash new_upload_task enqueue acquire after_acquire transfer
    update_pacing_rate upload_bwlimit_bytes div_ceil target_pace set_pacing_rate set_each
    upload_file_multipart attempts judge resume start_transfer finish stop counted respond
    status_code request_counted wrap64 new_conn_tracker time_sub
run = (_, refl, refl, refl)
