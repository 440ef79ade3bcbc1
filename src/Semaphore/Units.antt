-- ===== src/Semaphore/Units.antt =====
-- The units that Acquire of semaphore/semaphore.go takes, seen from one call.
use deliverator.Base.{
  ℕ, ◌+◌, ◌≡◌, ◌∙◌, arith, none, List, [], ◌∷◌, All, Option-cases, inl, inr, if◌then◌else◌, is_some,
}
use deliverator.Errors.{GoError}
use deliverator.Semaphore.{Msemaphore, Semaphore, Wait, block, acquire, add_waiter}
use deliverator.Semaphore.Laws.{IsCounting}

module _ {S : Type 0} (m : Msemaphore S) where
  abbrev pub count : Semaphore S → ℕ
  count s = m.get_count s.inner

  -- Other goroutines that leave the number of units taken as it was.
  abbrev pub KeepCount : List (Semaphore S → Semaphore S) → Type 0
  KeepCount os = All (λ o. (s : Semaphore S) → count (o s) ≡ count s) os

  module _ (laws : IsCounting m) where
    block-units :
        (n : ℕ) (e : GoError) (os : List (Semaphore S → Semaphore S)) (s : Semaphore S)
        → KeepCount os
        → count (block m n e os s).0 ≡ count s + (if is_some (block m n e os s).1 then 0 else n)
    unfolding block
    block-units n e [] s h = omega arith
    block-units n e (o ∷ os) s h = elim (Option-cases (m.enter (o s).inner n)) [
      | inl x ↦ rw (x, block) (block-units n e os (o s) h.1 ∙ omega (arith, h.0 s))
      | inr (i, x) ↦ rw (x, block) (omega (arith, laws.entered (o s).inner i n x, h.0 s))
    ]

    -- Acquire whose callbacks do not fail takes n units if it returns nil, and none if it returns an
    -- error, when the other goroutines' changes balance out.
    pub acquire-units :
        (n : ℕ) (w : Wait S) (s : Semaphore S)
        → KeepCount w.others
        → w.callback_err ≡ none
        → count (acquire m n w s).0 ≡ count s + (if is_some (acquire m n w s).1 then 0 else n)
    unfolding acquire
    acquire-units n w s h c = elim (Option-cases (m.enter s.inner n)) [
      | inl x ↦ rw (x, c, acquire) (block-units n w.ctx_err w.others (add_waiter s) h)
      | inr (i, x) ↦ rw (x, acquire) (omega (arith, laws.entered s.inner i n x))
    ]
