-- ===== src/Upload/Json/Samples.antt =====
-- Test data: texts of ids, URLs and numbers, and the task of the sample request.
use deliverator.Base.{◌^◌, ◌<◌, refl, arith, none, some, str_eq, if◌then◌else◌}
use deliverator.Base.Int.{ℤ, pos, pos_part, wrap64}
use deliverator.Conf.Numbers.{parse_int, itoa, unsigned, digits, clamp_pos, clamp_neg, print, digit}
use deliverator.Upload.Samples.{whole, url}
use deliverator.Upload.Serve.Run.{run}
use deliverator.Semaphore.{acquire}
use deliverator.Util.{div_ceil}
use deliverator.Conf.{upload_bwlimit_bytes}
use deliverator.ConnTracker.Tracker.{set_pacing_rate, set_each, new_conn_tracker}
use deliverator.Upload.Task.{new_upload_task, start_transfer, stop, time_sub}
use deliverator.Upload.Multipart.{judge, upload_file_multipart, attempts, resume}
use deliverator.Upload.Parse.{
  parse_request, parse_file, parse_uri, parse_slug, parse_size, is_abs, drop_slash,
}
use deliverator.Upload.Handler.{
  do_serve_http, after_parse, enqueue, after_acquire, transfer, update_pacing_rate, target_pace,
  finish,
}
use deliverator.Upload.Serve.{status_code, serve_http, counted, respond, request_counted}
use deliverator.Upload.Json.{Texts}
use deliverator.Upload.Json.RoundTrip.{IsReadable}

-- Ids and floats are printed in decimal, and the only URL is that of the sample request.
abbrev pub texts : Texts ℤ
texts = record {
  uuid_text = λ id. itoa (pos id);
  parse_uuid = λ s. some (pos_part (parse_int s));
  parse_url = λ s. if str_eq s "s3://bucket/key" then some url else none;
  float_text = itoa;
  parse_float = λ s. some (parse_int s);
}

pub run-IsReadable : IsReadable whole texts run.0.1.body.task
unfolding serve_http do_serve_http after_parse parse_request parse_file parse_uri parse_slug
    parse_size is_abs drop_slash new_upload_task enqueue acquire after_acquire transfer
    update_pacing_rate upload_bwlimit_bytes div_ceil target_pace set_pacing_rate set_each
    upload_file_multipart attempts judge resume start_transfer finish stop counted respond
    status_code request_counted wrap64 new_conn_tracker time_sub parse_int itoa unsigned digits
    clamp_pos clamp_neg print digit
run-IsReadable = record {
  id = refl;
  uri = λ u e. cc;
  total = (λ e. ground arith, refl);
  queued = (λ e. ground arith, refl);
  transferred = (λ e. ground arith, refl);
  rate = (λ e. ground arith, refl);
  attempts = omega arith;
  size = omega arith;
  parts = omega arith;
}

pub run-code : run.0.1.body.code < 2 ^ 63
unfolding serve_http do_serve_http after_parse parse_request parse_file parse_uri parse_slug
    parse_size is_abs drop_slash new_upload_task enqueue acquire after_acquire transfer
    update_pacing_rate upload_bwlimit_bytes div_ceil target_pace set_pacing_rate set_each
    upload_file_multipart attempts judge resume start_transfer finish stop counted respond
    status_code request_counted wrap64 new_conn_tracker time_sub
run-code = omega arith
