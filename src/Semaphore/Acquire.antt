-- ===== src/Semaphore/Acquire.antt =====
-- Acquire of semaphore/semaphore.go as one call, with what other goroutines do in between.
use deliverator.Base.{
  ℕ, ◌^◌, ◌<◌, ◌≡◌, ◌≢◌, refl, arith, none, some, List, [], ◌∷◌, All, Option-cases, inl, inr, ◌∙◌,
}
use deliverator.Errors.{GoError}
use deliverator.Semaphore.{Msemaphore, Semaphore, Wait, block, acquire, add_waiter}
use deliverator.Semaphore.Laws.{IsCounting}

module _ {S : Type 0} (m : Msemaphore S) where
  -- Other goroutines whose waiters balance out between two looks for room.
  abbrev pub AreBalanced : List (Semaphore S → Semaphore S) → Type 0
  AreBalanced os = All (λ o. (s : Semaphore S) → (o s).waiters ≡ s.waiters) os

  -- Other goroutines, none of which changes the limit.
  abbrev pub KeepLimit : List (Semaphore S → Semaphore S) → Type 0
  KeepLimit os = All (λ o. (s : Semaphore S) → m.get_limit (o s).inner ≡ m.get_limit s.inner) os

  block-waiters :
      (n : ℕ) (e : GoError) (os : List (Semaphore S → Semaphore S)) (s : Semaphore S)
      → AreBalanced os
      → (block m n e os s).0.waiters ≡ s.waiters
  unfolding block
  block-waiters n e [] s h = refl
  block-waiters n e (o ∷ os) s h = ground (arith, h.0 s, block-waiters n e os (o s) h.1)

  -- Acquire leaves the number of waiters as it was, whether it succeeds at once, succeeds after it
  -- has blocked, or fails, if the other goroutines' changes to it balance out.
  pub acquire-waiters :
      (n : ℕ) (w : Wait S) (s : Semaphore S)
      → AreBalanced w.others
      → s.waiters < 2 ^ 32
      → (acquire m n w s).0.waiters ≡ s.waiters
  unfolding acquire
  acquire-waiters n w s h fits = ground (arith, block-waiters n w.ctx_err w.others (add_waiter s) h)

  module _ (laws : IsCounting m) (limit n : ℕ) (above : limit < n) where
    never-enter : (i : S) → m.get_limit i ≡ limit → m.enter i n ≡ none
    never-enter i h = elim (Option-cases (m.enter i n)) [
      | inl e ↦ e
      | inr (t, e) ↦ absurd (omega (arith, laws.entered i t n e))
    ]

    block-fails :
        (e : GoError) (os : List (Semaphore S → Semaphore S)) (s : Semaphore S)
        → KeepLimit os
        → m.get_limit s.inner ≡ limit
        → (block m n e os s).1 ≡ some e
    unfolding block
    block-fails e [] s h l = refl
    block-fails e (o ∷ os) s h l =
        rw (never-enter (o s).inner (h.0 s ∙ l), block) (block-fails e os (o s) h.1 (h.0 s ∙ l))

    pub acquire-fails :
        (w : Wait S) (s : Semaphore S)
        → KeepLimit w.others
        → m.get_limit s.inner ≡ limit
        → w.callback_err ≡ none
        → (acquire m n w s).1 ≡ some w.ctx_err
    unfolding acquire
    acquire-fails w s h l c =
        ground (arith, never-enter s.inner l, block-fails w.ctx_err w.others (add_waiter s) h l)

    -- Acquire of more units than the limit fails, however much the other goroutines release in the
    -- meantime: it returns the error of the context, or that of a callback.
    pub acquire-too_many :
        (w : Wait S) (s : Semaphore S)
        → KeepLimit w.others
        → m.get_limit s.inner ≡ limit
        → (acquire m n w s).1 ≢ none
    unfolding acquire
    acquire-too_many w s h l =
        ground (arith, never-enter s.inner l, block-fails w.ctx_err w.others (add_waiter s) h l)
