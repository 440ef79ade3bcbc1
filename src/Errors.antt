-- ===== src/Errors.antt =====
-- Go error values as the program inspects them (errors.Is, errors.As, Error()), and
-- upload/badrequesterror/badrequesterror.go.

use Prim.Native.String.{◌++◌ as ◌+++◌}
use deliverator.Base.{
  ℕ, String, Bool, true, false, Option, none, some, ◌||◌, ◌==◌, str_eq, if◌then◌else◌,
}

-- The error variables of upload/handler.go, the two of package context, and http.ErrServerClosed.
pub data Sentinel : Type 0 where
  upload_attempt_timeout upload_queue_timeout upload_aborted upload_no_such_bucket : Sentinel
  context_canceled context_deadline_exceeded server_closed : Sentinel

-- `wrap` and `join` are the values of gherrors.Wrap and of errors.Join of two errors. The errors of
-- the S3 client are told apart by what errors.As finds: a smithy.APIError with its code, message
-- and text, an awshttp.ResponseError with its status, text and cause, or any other layer.
pub data GoError : Type 0 where
  sentinel : Sentinel → GoError
  bad_request : String → GoError
  bad_request_wrap : GoError → String → GoError
  api_error : String → String → String → GoError
  response_error : ℕ → String → GoError → GoError
  layer : String → GoError → GoError
  wrap : GoError → String → GoError
  join : GoError → GoError → GoError
  plain : String → GoError

abbrev pub index : Sentinel → ℕ
index upload_attempt_timeout = 0
index upload_queue_timeout = 1
index upload_aborted = 2
index upload_no_such_bucket = 3
index context_canceled = 4
index context_deadline_exceeded = 5
index server_closed = 6

abbrev pub sentinel_text : Sentinel → String
sentinel_text upload_attempt_timeout = "upload attempt timeout"
sentinel_text upload_queue_timeout = "upload queue timeout"
sentinel_text upload_aborted = "upload request aborted because the client disconnected"
sentinel_text upload_no_such_bucket = "upload failed because the bucket does not exist"
sentinel_text context_canceled = "context canceled"
sentinel_text context_deadline_exceeded = "context deadline exceeded"
sentinel_text server_closed = "http: Server closed"

-- BadRequestError.Error.
unfoldable pub bad_request_text : String → String
bad_request_text msg = if str_eq msg "" then "bad request" else "bad request: " +++ msg

-- err.Error().
unfoldable pub error_text : GoError → String
unfolding bad_request_text
error_text (sentinel s) = sentinel_text s
error_text (bad_request msg) = bad_request_text msg
error_text (bad_request_wrap cause msg) = bad_request_text msg
error_text (api_error code msg text) = text
error_text (response_error status text e) = text
error_text (layer text e) = text
error_text (wrap e msg) = msg +++ ": " +++ error_text e
error_text (join e f) = error_text e +++ "\n" +++ error_text f
error_text (plain text) = text

-- errors.Is(e, target).
unfoldable pub is : GoError → Sentinel → Bool
is (sentinel s) target = index s == index target
is (bad_request msg) target = false
is (bad_request_wrap cause msg) target = is cause target
is (api_error code msg text) target = false
is (response_error status text e) target = is e target
is (layer text e) target = is e target
is (wrap e msg) target = is e target
is (join e f) target = is e target || is f target
is (plain text) target = false

-- errors.As(e, &badRequestErr).
unfoldable pub as_bad_request : GoError → Bool
as_bad_request (sentinel s) = false
as_bad_request (bad_request msg) = true
as_bad_request (bad_request_wrap cause msg) = true
as_bad_request (api_error code msg text) = false
as_bad_request (response_error status text e) = as_bad_request e
as_bad_request (layer text e) = as_bad_request e
as_bad_request (wrap e msg) = as_bad_request e
as_bad_request (join e f) = as_bad_request e || as_bad_request f
as_bad_request (plain text) = false

-- The first of two searches that finds something.
abbrev pub first {ℓ} : {A : Type ℓ} → Option A → Option A → Option A
first none p = p
first (some a) p = some a

-- errors.As(e, &smithyAPIErr): the ErrorCode and ErrorMessage of the first smithy.APIError.
unfoldable pub as_api_error : GoError → Option (String × String)
as_api_error (sentinel s) = none
as_api_error (bad_request msg) = none
as_api_error (bad_request_wrap cause msg) = as_api_error cause
as_api_error (api_error code msg text) = some (code, msg)
as_api_error (response_error status text e) = as_api_error e
as_api_error (layer text e) = as_api_error e
as_api_error (wrap e msg) = as_api_error e
as_api_error (join e f) = first (as_api_error e) (as_api_error f)
as_api_error (plain text) = none

-- errors.As(e, &awsHTTPError): the HTTPStatusCode of the first awshttp.ResponseError.
unfoldable pub as_response_error : GoError → Option ℕ
as_response_error (sentinel s) = none
as_response_error (bad_request msg) = none
as_response_error (bad_request_wrap cause msg) = as_response_error cause
as_response_error (api_error code msg text) = none
as_response_error (response_error status text e) = some status
as_response_error (layer text e) = as_response_error e
as_response_error (wrap e msg) = as_response_error e
as_response_error (join e f) = first (as_response_error e) (as_response_error f)
as_response_error (plain text) = none
