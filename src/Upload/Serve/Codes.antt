-- ===== src/Upload/Serve/Codes.antt =====
-- Which status code ServeHTTP of upload/handler.go gives to the errors that doServeHTTP makes.
use deliverator.Base.{
  ℕ, ◌≡◌, ◌≢◌, arith, String, true, false, none, some, eq_iff, is_some, if◌then◌else◌,
}
use deliverator.Base.Int.{ℤ}
use deliverator.Errors.{
  GoError, is, as_bad_request, as_api_error, upload_attempt_timeout, upload_queue_timeout,
  upload_aborted, upload_no_such_bucket, context_canceled,
}
use deliverator.Upload.Multipart.{Attempt, cause, judge}
use deliverator.Upload.Multipart.Decision.{conclude}
use deliverator.Upload.Handler.{queue_error}
use deliverator.Upload.Serve.{status_code}

-- An error from outside the package: none of its own errors is in it.
pub record IsForeign (e : GoError) : Type 0 where
  pub not_bad_request : as_bad_request e ≡ false
  pub not_attempt_timeout : is e upload_attempt_timeout ≡ false
  pub not_queue_timeout : is e upload_queue_timeout ≡ false
  pub not_aborted : is e upload_aborted ≡ false
  pub not_no_such_bucket : is e upload_no_such_bucket ≡ false

module _ (tries : ℤ) (k : ℕ) (a : Attempt) (e : GoError) (err : a.err ≡ some e)
    (foreign : IsForeign e) where
  open foreign use {
    not_bad_request, not_attempt_timeout, not_queue_timeout, not_aborted, not_no_such_bucket,
  }

  -- The code for an upload that attempt k ended with an error e from outside the package: 404 if the
  -- first API error in it has the code NoSuchBucket, 502 if it has another, and without an API
  -- error 504 if the attempt's time was up, else 418 if e is that of a cancelled context, else 500.
  pub attempt_code :
      ((msg : String)
        → as_api_error e ≡ some ("NoSuchBucket", msg)
        → status_code (conclude tries k (judge a)) ≡ 404)
      × ((code msg : String)
          → as_api_error e ≡ some (code, msg)
          → code ≢ "NoSuchBucket"
          → status_code (conclude tries k (judge a)) ≡ 502)
      × (as_api_error e ≡ none
          → is (cause a) upload_attempt_timeout ≡ true
          → status_code (conclude tries k (judge a)) ≡ 504)
      × (as_api_error e ≡ none
          → is (cause a) upload_attempt_timeout ≡ false
          → is e context_canceled ≡ true
          → status_code (conclude tries k (judge a)) ≡ 418)
      × (as_api_error e ≡ none
          → is (cause a) upload_attempt_timeout ≡ false
          → is e context_canceled ≡ false
          → status_code (conclude tries k (judge a)) ≡ 500)
  unfolding judge status_code is as_bad_request as_api_error
  attempt_code = (
    λ msg h. ground arith,
    λ code msg h ne. ground (arith, eq_iff code "NoSuchBucket"),
    λ h c. ground arith,
    λ h c d. ground arith,
    λ h c d. ground arith,
  )

-- The code for a request that fails in the queue with an error from outside the package: 408 if
-- the cause is the queue timeout, else 418 if the error is that of a cancelled context. Any other
-- error gets 502 or 500.
pub queue_code :
    (c e : GoError)
    → IsForeign e
    → (is c upload_queue_timeout ≡ true → status_code (some (queue_error c e)) ≡ 408)
      × (is c upload_queue_timeout ≡ false
          → is e context_canceled ≡ true
          → status_code (some (queue_error c e)) ≡ 418)
      × (is c upload_queue_timeout ≡ false
          → is e context_canceled ≡ false
          → status_code (some (queue_error c e)) ≡ (if is_some (as_api_error e) then 502 else 500))
unfolding queue_error status_code is as_bad_request as_api_error
queue_code c e f = (λ h. ground arith, λ h d. ground arith, λ h d. ground arith)
