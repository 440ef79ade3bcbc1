-- ===== src/Upload/Serve/Outcomes.antt =====
-- From the attempts of an upload to the status code of the answer, in upload/handler.go.
use deliverator.Base.{
  ℕ, suc, ◌<◌, ◌≤◌, ◌≡◌, ◌∙◌, ap, arith, String, true, Option, none, some, returned, subst,
}
use deliverator.Base.Int.{pos}
use deliverator.Errors.{
  GoError, is, as_api_error, upload_attempt_timeout, upload_no_such_bucket, sentinel, join,
}
use deliverator.Conf.{Conf}
use deliverator.Upload.Task.{Float64, Task}
use deliverator.Upload.Multipart.{
  Attempt, give_up, Uploader, Uploaded, cause, judge, judge_error, call, upload_file_multipart,
}
use deliverator.Upload.Multipart.Decision.{IsGoOn, conclude, attempts_total, retries_total}
use deliverator.Upload.Multipart.Uploads.{upload-Decides}
use deliverator.Upload.Serve.{status_code}
use deliverator.Upload.Serve.Codes.{IsForeign, attempt_code}

-- An attempt that fails, without an API error, because its time was up.
pub record TimesOut (a : Attempt) : Type 0 where
  pub e : GoError
  pub err : a.err ≡ some e
  pub foreign : IsForeign e
  pub no_api_error : as_api_error e ≡ none
  pub expired : is (cause a) upload_attempt_timeout ≡ true

-- An attempt that fails with the API error NoSuchBucket.
pub record MissesBucket (a : Attempt) : Type 0 where
  pub e : GoError
  pub msg : String
  pub err : a.err ≡ some e
  pub foreign : IsForeign e
  pub api_error : as_api_error e ≡ some ("NoSuchBucket", msg)

MissesBucket-gives_up : (a : Attempt) → MissesBucket a → ¬ IsGoOn (judge a)
unfolding judge judge_error
MissesBucket-gives_up a b g =
    let e : judge a ≡ give_up (join (sentinel upload_no_such_bucket) b.e) = ground arith in
    subst IsGoOn e g

at_start : (k : ℕ) → 1 ≤ k → ¬ (1 < k) → k ≡ 1
at_start k h n = omega arith

module _ {F : Type 0} (fl : Float64 F) (c : Conf) (upload : Uploader)
    (open_file : String → Option GoError) (t : Task F) (file bucket key : String)
    (has_file : t.file ≡ some file) (has_bucket : t.bucket ≡ some bucket)
    (has_key : t.key ≡ some key) (opens : open_file file ≡ none) (n : ℕ)
    (tries : c.upload_tries ≡ pos (suc n)) where
  -- If the first attempt finds that the bucket does not exist, no other attempt is made, however
  -- many are allowed, and the error has the code 404.
  pub upload-no_such_bucket :
      MissesBucket (upload (call fl c t bucket key 1))
      → (r : Uploaded F) × (upload_file_multipart fl c upload open_file t ≡ returned r)
        × (status_code r.2 ≡ 404)
        × (attempts_total r.1 ≡ 1)
        × (retries_total r.1 ≡ 0)
  upload-no_such_bucket miss =
      let (r, er, d) =
        upload-Decides fl c upload open_file t file bucket key has_file has_bucket has_key opens n
          tries in
      let one : d.last ≡ 1 =
        at_start d.last d.begun (λ h. MissesBucket-gives_up _ miss (d.earlier 1 (omega arith) h)) in
      (
        r,
        er,
        ap status_code d.error
            ∙ ap
                (λ k.
                  status_code
                    (conclude c.upload_tries k (judge (upload (call fl c t bucket key k)))))
                one
            ∙ (attempt_code c.upload_tries 1 (upload (call fl c t bucket key 1)) miss.e miss.err
                  miss.foreign).0
                miss.msg miss.api_error,
        omega (arith, d.counted_attempts),
        omega (arith, d.counted_retries),
      )
