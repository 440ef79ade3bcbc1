-- ===== src/Upload/Multipart.antt =====
-- UploadTimeout and uploadFileMultipart of upload/handler.go: the attempts to upload a file.
pub mod Decision
pub mod Timeout
pub mod Uploads
pub mod Integers
mod Examples
use Prim.Native.String.{◌++◌ as ◌+++◌}
use deliverator.Base.{
  ℕ, zero, suc, ◌+◌, String, Option, none, some, List, [], ◌∷◌, ◌++◌, ◌||◌, Outcome, returned,
  ◌>>=◌, ltb, ◌==◌, str_eq, if◌then◌else◌,
}
use deliverator.Base.Int.{ℤ, pos, pos_part, leb_ℤ, ◌-ℤ◌}
use deliverator.Errors.{
  GoError, sentinel, wrap, join, is, as_api_error, upload_attempt_timeout, upload_aborted,
  upload_no_such_bucket, context_canceled,
}
use deliverator.Conf.{Conf, or_else}
use deliverator.Conf.Numbers.{itoa}
use deliverator.Upload.Task.{Float64, Task}
use deliverator.Upload.Metrics.{Event}
use deliverator.Upload.Metrics
use deliverator.Upload.Parse.{deref}

-- UploadTimeout.
unfoldable pub upload_timeout : {F : Type 0} → Float64 F → Conf → ℤ → ℤ
upload_timeout fl c attempt =
    if leb_ℤ attempt (pos 1) || leb_ℤ c.upload_timeout_factor (pos 1)
    then c.upload_timeout
    else let f = fl.pow_f (fl.of_int64 c.upload_timeout_factor) (fl.of_int64 (attempt -ℤ pos 1)) in
      fl.round_duration (fl.mul_f f (fl.of_int64 c.upload_timeout))

-- What a call of uploader.Upload is given: the timeout of its context, the bucket, the key and the
-- number of concurrent parts.
pub record Call : Type 0 where
  pub number : ℕ
  pub timeout : ℤ
  pub bucket : String
  pub key : String
  pub concurrency : ℤ

-- How it ends: its error, and the cause for which its context was done by then, if it was.
pub record Attempt : Type 0 where
  pub err : Option GoError
  pub done : Option GoError

abbrev pub Uploader : Type 0
Uploader = Call → Attempt

-- context.Cause(uploadCtx), which is read after cancel().
abbrev pub cause : Attempt → GoError
cause a = or_else a.done (sentinel context_canceled)

-- The switch on the error of an attempt: leave the loop, return an error, or go on with an error
-- and the beginning of its message.
pub data Verdict : Type 0 where
  succeed : Verdict
  give_up : GoError → Verdict
  go_on : GoError → String → Verdict

unfoldable pub judge_error : Attempt → GoError → Verdict
judge_error a e = elim (as_api_error e) [
  | some (code, msg) ↦
      if str_eq code "NoSuchBucket"
      then give_up (join (sentinel upload_no_such_bucket) e)
      else go_on e "s3 error"
  | none ↦
      if is (cause a) upload_attempt_timeout
      then go_on (join (sentinel upload_attempt_timeout) e) "timeout"
      else if is e context_canceled
      then give_up (join (sentinel upload_aborted) e)
      else go_on e "unknown error"
]

unfoldable pub judge : Attempt → Verdict
unfolding judge_error
judge a = elim a.err [ none ↦ succeed | some e ↦ judge_error a e ]

-- The task, the metrics counted, and the error.
abbrev pub Uploaded : Type 0 → Type 0
Uploaded F = Task F × List (Event F) × Option GoError

-- The counters at the start of an attempt.
abbrev pub counted : {F : Type 0} → ℕ → List (Event F)
counted k = if ltb 1 k then Metrics.attempt ∷ Metrics.retry ∷ [] else Metrics.attempt ∷ []

-- More metrics counted before.
abbrev pub after : {F : Type 0} → List (Event F) → Uploaded F → Uploaded F
after es (t, fs, e) = (t, es ++ fs, e)

abbrev pub call : {F : Type 0} → Float64 F → Conf → Task F → String → String → ℕ → Call
call fl c t bucket key k = record {
  number = k;
  timeout = upload_timeout fl c (pos k);
  bucket = bucket;
  key = key;
  concurrency = t.upload_parts;
}

abbrev pub attempt_text : String → ℕ → ℤ → String
attempt_text msg k tries = msg +++ " during upload attempt " +++ itoa (pos k) +++ "/" +++ itoa tries

-- The end of attempt k: leave the loop, return, or go on with the rest if attempts are left.
unfoldable pub resume : {F : Type 0} → ℤ → ℕ → Task F → Uploaded F → Verdict → Uploaded F
resume tries k t rest succeed = (t, counted k, none)
resume tries k t rest (give_up e) = (t, counted k, some e)
resume tries k t rest (go_on e msg) =
    if k == pos_part tries
    then (t, counted k, some (wrap e (attempt_text msg k tries)))
    else after (counted k) rest

module _ {F : Type 0} (fl : Float64 F) (c : Conf) (upload : Uploader) where
  -- The loop `attempts`, with the rounds left by its condition, from attempt k on.
  unfoldable pub attempts : String → String → ℕ → ℕ → Task F → Uploaded F
  unfolding resume
  attempts bucket key zero k t = (record t { upload_attempts = pos k }, [], none)
  attempts bucket key (suc left) k t =
      let t' : Task F = record t { upload_attempts = pos k } in
      let rest = attempts bucket key left (k + 1) t in
      resume c.upload_tries k t' rest (judge (upload (call fl c t bucket key k)))

  -- uploadFileMultipart. `open_file` is os.Open.
  unfoldable pub upload_file_multipart : (String → Option GoError) → Task F → Outcome (Uploaded F)
  upload_file_multipart open_file t = do
    file ← deref t.file
    elim (open_file file) [
      | some e ↦ returned (t, [], some (wrap e ("Could not open file " +++ file +++ " to upload")))
      | none ↦ do
        bucket ← deref t.bucket
        key ← deref t.key
        returned (attempts bucket key (pos_part c.upload_tries) 1 t)
    ]
