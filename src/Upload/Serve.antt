-- ===== src/Upload/Serve.antt =====
-- ServeHTTP of upload/handler.go: the answer to an upload request, and its metrics.
pub mod Codes
pub mod Responses
pub mod Answers
pub mod Outcomes
pub mod TooMany
pub mod Integers
pub mod Run
mod Examples
use deliverator.Base.{
  ℕ, String, Option, none, some, List, [], ◌∷◌, ◌++◌, Outcome, returned, ◌>>=◌, ◌==◌, is_some,
  if◌then◌else◌,
}
use deliverator.Errors.{
  GoError, error_text, is, as_bad_request, as_api_error, as_response_error, upload_attempt_timeout,
  upload_queue_timeout, upload_aborted, upload_no_such_bucket,
}
use deliverator.Semaphore.{Msemaphore}
use deliverator.Upload.Task.{Float64, Task}
use deliverator.Upload.Metrics.{Event}
use deliverator.Upload.Metrics
use deliverator.Upload.Handler.{Handler, Request, do_serve_http}

-- The status code for the error of doServeHTTP.
unfoldable pub status_code : Option GoError → ℕ
status_code none = 200
status_code (some e) =
    if as_bad_request e
    then 400
    else if is e upload_aborted
    then 418
    else if is e upload_queue_timeout
    then 408
    else if is e upload_attempt_timeout
    then 504
    else if is e upload_no_such_bucket
    then 404
    else if is_some (as_api_error e)
    then 502
    else 500

abbrev pub message : Option GoError → String
message none = "upload succeeded"
message (some e) = error_text e

-- awsError.
abbrev pub api_counted : {F : Type 0} → Option (String × String) → List (Event F)
api_counted none = []
api_counted (some (code, msg)) = Metrics.s3_api_error code msg ∷ []

abbrev pub response_counted : {F : Type 0} → Option ℕ → List (Event F)
response_counted none = []
response_counted (some status) = Metrics.s3_http_response status ∷ []

unfoldable pub aws_error : {F : Type 0} → GoError → List (Event F)
aws_error e = api_counted (as_api_error e) ++ response_counted (as_response_error e)

-- The metrics of the switch on the error: awsError is called for the codes 404 and 502.
abbrev pub switch_counted : {F : Type 0} → Task F → Option GoError → List (Event F)
switch_counted t none = Metrics.transfer_rate_bytes t.upload_transfer_rate_bytes ∷ []
switch_counted t (some e) =
    let code : ℕ = status_code (some e) in
    if code == 404 then aws_error e else if code == 502 then aws_error e else []

-- The metrics of every request, labelled with its status code.
unfoldable pub request_counted : {F : Type 0} → Float64 F → ℕ → Task F → List (Event F)
request_counted fl code t =
    Metrics.requests_total code
    ∷ Metrics.bytes_total code (fl.of_int64 t.upload_size_bytes)
    ∷ Metrics.total_seconds code t.upload_total_seconds
    ∷ Metrics.queued_seconds code t.upload_queued_seconds
    ∷ Metrics.transfer_seconds code t.upload_transfer_seconds
    ∷ Metrics.transfer_size_bytes code (fl.of_int64 t.upload_size_bytes)
    ∷ Metrics.upload_attempts code (fl.of_int64 t.upload_attempts)
    ∷ Metrics.upload_parts code (fl.of_int64 t.upload_parts)
    ∷ []

-- RequestStatus.
pub record RequestStatus (F : Type 0) : Type 0 where
  pub version : String
  pub code : ℕ
  pub msg : String
  pub task : Task F

-- The response: the x-error header, the Content-Type, the status line, and the body before it is
-- encoded.
pub record Response (F : Type 0) : Type 0 where
  pub x_error : Option String
  pub content_type : String
  pub status : ℕ
  pub body : RequestStatus F

-- The answer to a request.
unfoldable pub respond : {F : Type 0} → String → Task F → Option GoError → Response F
respond version t e = record {
  x_error = if status_code e == 200 then none else some (message e);
  content_type = "application/json";
  status = status_code e;
  body = record { version = version; code = status_code e; msg = message e; task = t };
}

module _ {S : Type 0} (m : Msemaphore S) {F : Type 0} (fl : Float64 F) where
  -- All metrics that ServeHTTP adds to those of doServeHTTP.
  unfoldable pub counted : Task F → Option GoError → List (Event F)
  unfolding request_counted aws_error
  counted t e =
      switch_counted t e
      ++ request_counted fl (status_code e) t
      ++ (if status_code e == 200 then Metrics.s3_http_response 200 ∷ [] else [])

  -- ServeHTTP.
  unfoldable pub serve_http :
      Request S → Handler S → Outcome (Handler S × Response F × List (Event F))
  serve_http r h = do
    (h', t, es, e) ← do_serve_http m fl r h
    returned (h', respond h.conf.version t e, es ++ counted t e)
