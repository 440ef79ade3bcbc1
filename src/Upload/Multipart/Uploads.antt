-- ===== src/Upload/Multipart/Uploads.antt =====
-- uploadFileMultipart of upload/handler.go as a whole: with and without attempts.
use deliverator.Base.{
  ℕ, suc, ◌≡◌, refl, ap, ◌∙◌, subst, arith, String, Option, none, some, [], returned,
}
use deliverator.Base.Int.{ℤ, pos, negsuc, pos_part, ◌≤ℤ◌}
use deliverator.Errors.{GoError}
use deliverator.Conf.{Conf}
use deliverator.Upload.Task.{Float64, Task}
use deliverator.Upload.Multipart.{Uploader, Uploaded, attempts, upload_file_multipart}
use deliverator.Upload.Multipart.Decision.{Decides, attempts-Decides}

no_tries : (z : ℤ) → z ≤ℤ pos 0 → pos_part z ≡ 0
no_tries (pos n) le = omega arith
no_tries (negsuc n) le = refl

module _ {F : Type 0} (fl : Float64 F) (c : Conf) (upload : Uploader)
    (open_file : String → Option GoError) (t : Task F) (file bucket key : String)
    (has_file : t.file ≡ some file) (has_bucket : t.bucket ≡ some bucket)
    (has_key : t.key ≡ some key) (opens : open_file file ≡ none) where
  pub upload-attempts :
      upload_file_multipart fl c upload open_file t
      ≡ returned (attempts fl c upload bucket key (pos_part c.upload_tries) 1 t)
  unfolding upload_file_multipart
  upload-attempts = ground arith

  -- For a parsed task whose file opens, and a limit of n + 1 tries, the upload ends. Some attempt
  -- from 1 to n + 1 decides it: on each earlier one the verdict was to go on, and it was the last
  -- allowed or its verdict was not to go on. The task is changed in the number of attempts only,
  -- which is that attempt's; the error is the one that its verdict stands for; and the attempts
  -- counted are that many, the retries one fewer.
  pub upload-Decides :
      (n : ℕ)
      → c.upload_tries ≡ pos (suc n)
      → (r : Uploaded F) × (upload_file_multipart fl c upload open_file t ≡ returned r)
        × Decides fl c upload t bucket key 1 (suc n) r
  upload-Decides n e =
      let tries : pos_part c.upload_tries ≡ suc n = ap pos_part e in
      (
        attempts fl c upload bucket key (suc n) 1 t,
        upload-attempts ∙ ap (λ m. returned (attempts fl c upload bucket key m 1 t)) tries,
        subst
            (λ m.
              Decides fl c upload t bucket key 1 m (attempts fl c upload bucket key (suc n) 1 t))
            tries (attempts-Decides fl c upload t bucket key n 1 (omega arith) (omega arith)),
      )

  -- With a limit of 0 tries or less, a parsed task whose file opens is reported as uploaded, after one
  -- attempt, though the uploader was never called: whatever it would do, there is no error and nothing
  -- is counted.
  pub upload-no_tries :
      c.upload_tries ≤ℤ pos 0
      → upload_file_multipart fl c upload open_file t
        ≡ returned (record t { upload_attempts = pos 1 }, [], none)
  unfolding attempts
  upload-no_tries le =
      upload-attempts ∙ ap (λ m. returned (attempts fl c upload bucket key m 1 t)) (no_tries _ le)
