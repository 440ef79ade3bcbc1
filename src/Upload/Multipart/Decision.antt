-- ===== src/Upload/Multipart/Decision.antt =====
-- Which attempt decides an upload: the loop `attempts` of uploadFileMultipart against the verdicts
-- on the attempts 1, 2, and so on.
use native.Mathlib.Decide.{ℕ_discrete}
use deliverator.Base.{
  ==_iff, ==-false, ◌∙◌, sym, ◌≢◌, subst, ℕ, zero, suc, ◌+◌, ◌≤◌, ◌<◌, ◌≡◌, ◌⊎◌, inl, inr, refl,
  arith, String, Option, none, some, List, ltb, if◌then◌else◌, total,
}
use deliverator.Base.Int.{ℤ, pos, pos_part}
use deliverator.Errors.{GoError, wrap}
use deliverator.Conf.{Conf}
use deliverator.Upload.Task.{Float64, Task}
use deliverator.Upload.Metrics.{Event}
use deliverator.Upload.Metrics
use deliverator.Upload.Multipart.{
  Uploader, Verdict, succeed, give_up, go_on, judge, Uploaded, call, counted, after, resume,
  attempt_text, attempts,
}

abbrev pub IsGoOn : Verdict → Type 0
IsGoOn succeed = ⊥
IsGoOn (give_up e) = ⊥
IsGoOn (go_on e msg) = Unit

-- The error with which an attempt ends the upload.
abbrev pub conclude : ℤ → ℕ → Verdict → Option GoError
conclude tries k succeed = none
conclude tries k (give_up e) = some e
conclude tries k (go_on e msg) = some (wrap e (attempt_text msg k tries))

abbrev pub is_attempt : {F : Type 0} → Event F → ℕ
is_attempt Metrics.attempt = 1
is_attempt _ = 0

abbrev pub is_retry : {F : Type 0} → Event F → ℕ
is_retry Metrics.retry = 1
is_retry _ = 0

-- The number of attempts and of retries counted.
abbrev pub attempts_total : {F : Type 0} → List (Event F) → ℕ
attempts_total es = total is_attempt es

abbrev pub retries_total : {F : Type 0} → List (Event F) → ℕ
retries_total es = total is_retry es

Verdict-cases :
    (v : Verdict)
    → (v ≡ succeed)
      ⊎ ((e : GoError) × (v ≡ give_up e))
      ⊎ ((e : GoError) × (m : String) × (v ≡ go_on e m))
Verdict-cases succeed = inl refl
Verdict-cases (give_up e) = inr (inl (e, refl))
Verdict-cases (go_on e m) = inr (inr (e, m, refl))

-- A statement of k and of every later number below a bound holds of all of them.
from_next :
    (P : ℕ → Type 0) (k last : ℕ)
    → P k
    → ((j : ℕ) → k + 1 ≤ j → j < last → P j)
    → (j : ℕ) → k ≤ j
    → j < last
    → P j
from_next P k last here next j le lt = elim (ℕ_discrete k j) [
  | yes e ↦ subst P e here
  | no ne ↦ next j (omega arith) lt
]

module _ {F : Type 0} (fl : Float64 F) (c : Conf) (upload : Uploader) (t : Task F)
    (bucket key : String) where
  -- The verdict on attempt k.
  abbrev pub verdict : ℕ → Verdict
  verdict k = judge (upload (call fl c t bucket key k))

  -- An outcome of the loop that began at attempt k: attempt `last` decided it.
  pub record Decides (k max : ℕ) (r : Uploaded F) : Type 0 where
    pub last : ℕ
    pub begun : k ≤ last
    pub within : last ≤ max
    pub earlier : (j : ℕ) → k ≤ j → j < last → IsGoOn (verdict j)
    pub decisive : (last ≡ max) ⊎ ¬ IsGoOn (verdict last)
    pub task : r.0 ≡ record t { upload_attempts = pos last }
    pub error : r.2 ≡ conclude c.upload_tries last (verdict last)
    pub counted_attempts : attempts_total r.1 + k ≡ last + 1
    pub counted_retries : retries_total r.1 + (if ltb 1 k then k else 2) ≡ last + 1

  Decides-here :
      (k max : ℕ) (v : Verdict)
      → 0 < k
      → k ≤ max
      → verdict k ≡ v
      → (k ≡ max) ⊎ ¬ IsGoOn v
      → Decides k max (record t { upload_attempts = pos k }, counted k, conclude c.upload_tries k v)
  Decides-here k max v hk le e d = record {
    last = k;
    begun = omega arith;
    within = le;
    earlier = λ j a b. absurd (omega arith);
    decisive = rw e d;
    task = refl;
    error = rw e;
    counted_attempts = ground arith;
    counted_retries = ground arith;
  }

  Decides-later :
      (k max : ℕ) (e : GoError) (m : String) (r : Uploaded F)
      → 0 < k
      → verdict k ≡ go_on e m
      → Decides (k + 1) max r
      → Decides k max (after (counted k) r)
  Decides-later k max e m r hk v d = record {
    last = d.last;
    begun = omega arith;
    within = d.within;
    earlier = from_next (λ j. IsGoOn (verdict j)) k d.last (rw v tt) d.earlier;
    decisive = d.decisive;
    task = d.task;
    error = d.error;
    counted_attempts = ground arith;
    counted_retries = ground arith;
  }

  -- `rest` is the outcome of the loop from the next attempt on, where one is left.
  resume-Decides :
      (k max : ℕ) (v : Verdict) (rest : Uploaded F)
      → 0 < k
      → k ≤ max
      → max ≡ pos_part c.upload_tries
      → verdict k ≡ v
      → (k ≢ max → Decides (k + 1) max rest)
      → Decides k max (resume c.upload_tries k (record t { upload_attempts = pos k }) rest v)
  unfolding resume
  resume-Decides k max succeed rest hk le m e later =
      Decides-here k max succeed hk le e (inr (λ x. x))
  resume-Decides k max (give_up err) rest hk le m e later =
      Decides-here k max (give_up err) hk le e (inr (λ x. x))
  resume-Decides k max (go_on err msg) rest hk le m e later = elim (ℕ_discrete k max) [
    | yes same ↦
        rw ((==_iff k (pos_part c.upload_tries)).1 (same ∙ m))
          (Decides-here k max (go_on err msg) hk le e (inl same))
    | no ne ↦
        rw (==-false k (pos_part c.upload_tries) (λ h. ne (h ∙ sym m)))
          (Decides-later k max err msg rest hk e (later ne))
  ]

  pub attempts-Decides :
      (left k : ℕ)
      → 0 < k
      → k + left ≡ pos_part c.upload_tries
      → Decides k (pos_part c.upload_tries) (attempts fl c upload bucket key (suc left) k t)
  unfolding attempts
  attempts-Decides zero k hk e =
      resume-Decides k _ (verdict k) _ hk (omega arith) refl refl (λ ne. absurd (omega arith))
  attempts-Decides (suc left) k hk e =
      resume-Decides k _ (verdict k) _ hk (omega arith) refl refl
        (λ ne. attempts-Decides left (k + 1) (omega arith) (omega arith))
