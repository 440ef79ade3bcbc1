-- ===== src/Semaphore/Laws.antt =====
-- What the documentation of the weighted semaphore promises, and a counter that keeps it.
use deliverator.Base.{
  ℕ, ◌+◌, ◌-◌, ◌≤◌, ◌<◌, ◌≡◌, sym, ap, returned, panicked, ltb, returned-injective, >>=-eq-returned,
  ◌∙◌, arith, none, some, leb, Option-cases, inl, inr, if◌then◌else◌,
}
use deliverator.Base.Int.{ℤ, pos, pos_part}
use deliverator.Semaphore.{Msemaphore, Semaphore, new_semaphore}

pub record IsCounting {S : Type 0} (m : Msemaphore S) : Type 0 where
  pub new-returns : (limit : ℕ) → 0 < limit → (s : S) × (m.new (pos limit) ≡ returned s)
  pub count-new : (limit : ℤ) (s : S) → m.new limit ≡ returned s → m.get_count s ≡ 0
  pub limit-new : (limit : ℤ) (s : S) → m.new limit ≡ returned s → pos (m.get_limit s) ≡ limit
  pub entered :
      (s t : S) (n : ℕ)
      → m.enter s n ≡ some t
      → (m.get_count t ≡ m.get_count s + n)
        × (m.get_limit t ≡ m.get_limit s)
        × (m.get_count s + n ≤ m.get_limit s)
  pub full : (s : S) (n : ℕ) → m.enter s n ≡ none → m.get_limit s < m.get_count s + n
  pub left :
      (s t : S) (n : ℕ)
      → m.leave s n ≡ some t
      → (m.get_count t + n ≡ m.get_count s) × (m.get_limit t ≡ m.get_limit s)
  pub leaves : (s : S) (n : ℕ) → n ≤ m.get_count s → (t : S) × (m.leave s n ≡ some t)

-- A new semaphore has its limit, and nothing is taken.
pub record IsFresh {S : Type 0} (m : Msemaphore S) (limit : ℤ) (s : Semaphore S) : Type 0 where
  pub lent : m.get_count s.inner ≡ 0
  pub limited : m.get_limit s.inner ≡ pos_part limit
  pub waiters : s.waiters ≡ 0

pub new_semaphore-IsFresh :
    {S : Type 0} (m : Msemaphore S) (laws : IsCounting m) (limit : ℤ) (s : Semaphore S)
    → new_semaphore m limit ≡ returned s
    → IsFresh m limit s
new_semaphore-IsFresh m laws limit s e =
    let (i, n, f) = >>=-eq-returned (m.new limit) _ e in
    let made = returned-injective f in
    record {
      lent = ap (λ x. m.get_count x.inner) (sym made) ∙ laws.count-new limit i n;
      limited = ap (λ x. m.get_limit x.inner) (sym made) ∙ ap pos_part (laws.limit-new limit i n);
      waiters = ap (λ x. x.waiters) (sym made);
    }

-- There is room for units that do not exceed the limit.
pub room :
    {S : Type 0} (m : Msemaphore S) (laws : IsCounting m) (s : S) (n : ℕ)
    → m.get_count s + n ≤ m.get_limit s
    → (i : S) × (m.enter s n ≡ some i)
      × (m.get_count i ≡ m.get_count s + n)
      × (m.get_limit i ≡ m.get_limit s)
room m laws s n le = elim (Option-cases (m.enter s n)) [
  | inl e ↦ absurd (omega (arith, laws.full s n e))
  | inr (i, e) ↦ let (count, limit, _) = laws.entered s i n e in (i, e, count, limit)
]

-- A counter and its limit: test data.
pub record Counter : Type 0 where
  pub count : ℕ
  pub limit : ℕ

abbrev pub counter : Msemaphore Counter
counter = record {
  new = λ z.
      if ltb 0 (pos_part z)
      then returned (record { count = 0; limit = pos_part z })
      else panicked "semaphore limit must be greater than 0";
  enter =
      λ s n. if leb (s.count + n) s.limit then some (record s { count = s.count + n }) else none;
  leave = λ s n. if leb n s.count then some (record s { count = s.count - n }) else none;
  get_count = λ s. s.count;
  get_limit = λ s. s.limit;
}

pub counter-IsCounting : IsCounting counter
counter-IsCounting = record {
  new-returns = λ limit h. (record { count = 0; limit = limit }, ground arith);
  count-new = λ z s h. (ground arith);
  limit-new = λ z s h. (ground arith);
  entered = λ s t n h. ground arith;
  full = λ s n h. ground arith;
  left = λ s t n h. ground arith;
  leaves = λ s n h. (record s { count = s.count - n }, ground arith);
}
