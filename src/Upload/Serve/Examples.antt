-- ===== src/Upload/Serve/Examples.antt =====
-- Tests of the answers, and their theorems at concrete inputs.
use deliverator.Base.{◌≡◌, ◌≢◌, refl, arith, String, true, false, none, some, List, returned}
use deliverator.Base.Int.{ℤ, pos}
use deliverator.Errors.{
  GoError, sentinel, layer, api_error, bad_request, error_text, is, as_bad_request, as_api_error,
  upload_attempt_timeout, context_canceled, context_deadline_exceeded,
}
use deliverator.Semaphore.Laws.{Counter, counter, counter-IsCounting}
use deliverator.Upload.Task.{new_upload_task}
use deliverator.Upload.Metrics.{Event}
use deliverator.Upload.Samples.{whole, form, no_such_bucket}
use deliverator.Upload.Multipart.{judge, cause}
use deliverator.Upload.Multipart.Decision.{conclude, attempts_total}
use deliverator.Upload.Parse.{parse_request, parse_file}
use deliverator.Upload.Handler.{Handler, Request, Served, do_serve_http}
use deliverator.Upload.Handler.Samples.{handler, request, accepted}
use deliverator.Upload.Serve.{Response, status_code, serve_http}
use deliverator.Upload.Serve.Run.{run}
use deliverator.Upload.Serve.Codes.{IsForeign, attempt_code}
use deliverator.Upload.Serve.Answers.{Answers, serve_http-Answers, serve_http-bad_request}
use deliverator.Upload.Serve.TooMany.{serve_http-too_many_parts}

abbrev missing : GoError
missing = layer "operation error" (api_error "NoSuchBucket" "" "NoSuchBucket: ")

missing-IsForeign : IsForeign missing
unfolding is as_bad_request
missing-IsForeign = record {
  not_bad_request = refl;
  not_attempt_timeout = refl;
  not_queue_timeout = refl;
  not_aborted = refl;
  not_no_such_bucket = refl;
}

abbrev expired : GoError
expired = sentinel context_deadline_exceeded

expired-IsForeign : IsForeign expired
unfolding is as_bad_request
expired-IsForeign = record {
  not_bad_request = refl;
  not_attempt_timeout = refl;
  not_queue_timeout = refl;
  not_aborted = refl;
  not_no_such_bucket = refl;
}

attempt_code_example :
    ((msg : String)
      → as_api_error missing ≡ some ("NoSuchBucket", msg)
      → status_code (conclude (pos 3) 1 (judge no_such_bucket)) ≡ 404)
    × ((code msg : String)
        → as_api_error missing ≡ some (code, msg)
        → code ≢ "NoSuchBucket"
        → status_code (conclude (pos 3) 1 (judge no_such_bucket)) ≡ 502)
    × (as_api_error missing ≡ none
        → is (cause no_such_bucket) upload_attempt_timeout ≡ true
        → status_code (conclude (pos 3) 1 (judge no_such_bucket)) ≡ 504)
    × (as_api_error missing ≡ none
        → is (cause no_such_bucket) upload_attempt_timeout ≡ false
        → is missing context_canceled ≡ true
        → status_code (conclude (pos 3) 1 (judge no_such_bucket)) ≡ 418)
    × (as_api_error missing ≡ none
        → is (cause no_such_bucket) upload_attempt_timeout ≡ false
        → is missing context_canceled ≡ false
        → status_code (conclude (pos 3) 1 (judge no_such_bucket)) ≡ 500)
attempt_code_example = attempt_code (pos 3) 1 no_such_bucket missing refl missing-IsForeign

abbrev no_file : Request Counter
no_file = record request { form = record form { post_form_value = λ name. "" } }

serve_http-bad_request_example :
    (resp : Response ℤ) × (es : List (Event ℤ)) × (serve_http counter whole no_file handler
      ≡ returned (handler, resp, es))
    × (resp.status ≡ 400)
    × (resp.x_error ≡ some (error_text (bad_request "missing field: file")))
serve_http-bad_request_example =
    serve_http-bad_request counter whole no_file handler (new_upload_task whole 7 1_000)
      (bad_request "missing field: file") (unfold parse_request parse_file in refl)

serve_http-Answers_example :
    (s : Served counter whole) × (do_serve_http counter whole request handler ≡ returned s)
    × Answers counter whole s run.0.0 run.0.1 run.0.2
serve_http-Answers_example =
    serve_http-Answers counter whole request handler run.0.0 run.0.1 run.0.2 run.1

-- One unit, for a file of two parts.
abbrev narrow : Handler Counter
narrow = record handler {
  parallel_uploads = record { inner = record { count = 0; limit = 1 }; waiters = 0 };
}

serve_http-too_many_parts_example :
    (h' : Handler Counter) × (resp : Response ℤ) × (es : List (Event ℤ)) × (serve_http counter whole
        request narrow
      ≡ returned (h', resp, es))
    × (resp.status ≡ 408)
    × (attempts_total es ≡ 0)
serve_http-too_many_parts_example =
    serve_http-too_many_parts counter whole counter-IsCounting request narrow accepted.0 1 refl
      (omega (arith, accepted.2)) tt expired-IsForeign (unfold is in refl) accepted.1
