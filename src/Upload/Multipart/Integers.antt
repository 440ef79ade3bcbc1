-- ===== src/Upload/Multipart/Integers.antt =====
-- The integers of a task after uploadFileMultipart of upload/handler.go.
use deliverator.Base.{
  Holds, returns, bind-Holds, any-Holds, ℕ, zero, suc, ◌+◌, ◌^◌, ◌<◌, arith, String, Option,
  Bool-cases, inl, inr, Option-cases, ◌==◌,
}
use deliverator.Base.Int.{ℤ, pos, pos_part}
use deliverator.Errors.{GoError}
use deliverator.Conf.{Conf}
use deliverator.Upload.Task.{Float64, Task}
use deliverator.Upload.Task.Integers.{IsInt64}
use deliverator.Upload.Parse.{deref}
use deliverator.Upload.Multipart.{
  Verdict, succeed, give_up, go_on, Uploaded, resume, Uploader, attempts, upload_file_multipart,
}

module _ {F : Type 0} where
  -- The end of attempt k has the task of that attempt, or the one of the attempts after it.
  resume-IsInt64 :
      (tries : ℤ) (k : ℕ) (t : Task F) (rest : Uploaded F) (v : Verdict)
      → IsInt64 t
      → IsInt64 rest.0
      → IsInt64 (resume tries k t rest v).0
  unfolding resume
  resume-IsInt64 tries k t rest succeed i j = i
  resume-IsInt64 tries k t rest (give_up e) i j = i
  resume-IsInt64 tries k t rest (go_on e msg) i j = elim (Bool-cases (k == pos_part tries)) [
    | inl b ↦ rw b i
    | inr b ↦ rw b j
  ]

  numbered-IsInt64 :
      (k : ℕ) (t : Task F) → k < 2 ^ 63 → IsInt64 t → IsInt64 (record t { upload_attempts = pos k })
  numbered-IsInt64 k t lt i = record {
    attempts = (omega arith, lt);
    size = i.size;
    parts = i.parts;
  }

  module _ (fl : Float64 F) (c : Conf) (up : Uploader) (bucket key : String) where
    attempts-IsInt64 :
        (left k : ℕ) (t : Task F)
        → k + left < 2 ^ 63
        → IsInt64 t
        → IsInt64 (attempts fl c up bucket key left k t).0
    unfolding attempts
    attempts-IsInt64 zero k t lt i = numbered-IsInt64 k t (omega arith) i
    attempts-IsInt64 (suc left) k t lt i =
        resume-IsInt64 c.upload_tries k _ _ _ (numbered-IsInt64 k t (omega arith) i)
          (attempts-IsInt64 left (k + 1) t (omega arith) i)

  abbrev pub Transferred : Uploaded F → Type 0
  Transferred x = IsInt64 x.0

  pub upload-Transferred :
      (fl : Float64 F) (c : Conf) (up : Uploader) (open_file : String → Option GoError) (t : Task F)
      → pos_part c.upload_tries + 1 < 2 ^ 63
      → IsInt64 t
      → Holds Transferred (upload_file_multipart fl c up open_file t)
  unfolding upload_file_multipart
  upload-Transferred fl c up open_file t few i = bind-Holds (any-Holds (deref t.file)) (λ file u.
      elim (Option-cases (open_file file)) [
        | inr (e, q) ↦ rw q (returns i)
        | inl q ↦ rw q (
            bind-Holds (any-Holds (deref t.bucket)) (λ bucket v.
              bind-Holds (any-Holds (deref t.key)) (λ key w. returns (
                attempts-IsInt64 fl c up bucket key (pos_part c.upload_tries) 1 t (omega arith)
                  i))))
      ])
