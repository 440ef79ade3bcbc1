-- ===== src/Semaphore/Invariant.antt =====
-- The weighted semaphore of semaphore/semaphore.go never lends more than its limit, and counts its
-- waiters, in every interleaving.
use deliverator.Base.{
  ℕ, ◌+◌, ◌%◌, ◌^◌, ◌≤◌, ◌≡◌, ap, arith, some, List, [], ◌∷◌, ◌++◌, total, total-append, ◌∙◌,
}
use deliverator.Semaphore.{Msemaphore, Semaphore}
use deliverator.Semaphore.Laws.{IsCounting, IsFresh, new_semaphore-IsFresh}
use deliverator.Base.Int.{pos}
use deliverator.Semaphore.System.{
  Pc, blocked, entered, cancelled, holding, Move, try_ok, try_fail, count_waiter, grant, cancel,
  return_held, return_error, release_held, System, Step, arrives, moves, Reach, here, next,
}

-- The units that a goroutine has.
abbrev pub units : Pc → ℕ
units (entered n) = n
units (holding n) = n
units _ = 0

-- 1 for a goroutine that is counted as a waiter.
abbrev pub waits : Pc → ℕ
waits (blocked n) = 1
waits (entered n) = 1
waits (cancelled n) = 1
waits _ = 0

module _ {S : Type 0} (m : Msemaphore S) (laws : IsCounting m) (limit : ℕ) where
  pub record IsBalanced (s : System m) : Type 0 where
    pub lent : m.get_count s.sem.inner ≡ total units s.threads
    pub limited : m.get_limit s.sem.inner ≡ limit
    pub within : m.get_count s.sem.inner ≤ limit
    pub counted : s.sem.waiters ≡ total waits s.threads % 2 ^ 32

  -- A move changes the count by the units that its goroutine gets or gives back.
  pub record IsMoved (s : Semaphore S) (p : Pc) (t : Semaphore S) (q : Pc) : Type 0 where
    pub lent : m.get_count t.inner + units p ≡ m.get_count s.inner + units q
    pub limited : m.get_limit t.inner ≡ m.get_limit s.inner
    pub within :
        m.get_count s.inner ≤ m.get_limit s.inner → m.get_count t.inner ≤ m.get_limit s.inner
    pub counted :
        (rest : ℕ) → s.waiters ≡ (rest + waits p) % 2 ^ 32 → t.waiters ≡ (rest + waits q) % 2 ^ 32

  pub Move-IsMoved : {s t : Semaphore S} {p q : Pc} → Move m s p t q → IsMoved s p t q
  Move-IsMoved {s = s} (try_ok {n} {i} e) = ground (arith, laws.entered s.inner i n)
  Move-IsMoved (try_fail e) = ground arith
  Move-IsMoved count_waiter = omega arith
  Move-IsMoved {s = s} (grant {n} {i} e) = ground (arith, laws.entered s.inner i n)
  Move-IsMoved cancel = ground arith
  Move-IsMoved return_held = omega arith
  Move-IsMoved return_error = omega arith
  Move-IsMoved {s = s} (release_held {n} {i} e) = ground (arith, laws.left s.inner i n)

  Step-IsBalanced : {s t : System m} → Step m s t → IsBalanced s → IsBalanced t
  Step-IsBalanced (arrives n) v = omega arith
  Step-IsBalanced {s = s} (moves before after {p} {q} {sem} e mv) v =
      let moved = Move-IsMoved mv in
      let lent_before = ap (total units) e ∙ total-append units before (p ∷ after) in
      let waits_before = ap (total waits) e ∙ total-append waits before (p ∷ after) in
      let rest : ℕ = total waits before + total waits after in
      record {
        lent =
            omega (arith, moved.lent, v.lent, lent_before, total-append units before (q ∷ after));
        limited = moved.limited ∙ v.limited;
        within = omega (arith, moved.within, v.within, v.limited);
        counted = omega (
          arith,
          moved.counted rest,
          v.counted,
          waits_before,
          total-append waits before (q ∷ after),
        );
      }

  new-IsBalanced :
      (s : Semaphore S) → IsFresh m (pos limit) s → IsBalanced (record { sem = s; threads = [] })
  new-IsBalanced s v = record {
    lent = v.lent;
    limited = v.limited;
    within = omega (arith, v.lent);
    counted = v.waiters;
  }

  -- With a semaphore that keeps its documentation, in every interleaving of Acquire and Release: the
  -- count is the number of units that goroutines have taken and not given back, the limit is the one
  -- it was made with, the count is at most the limit, and `waiters` is the number of goroutines
  -- between the two changes that Acquire makes to it, modulo 2 ^ 32.
  pub Reach-IsBalanced : {s : System m} → Reach m limit s → IsBalanced s
  Reach-IsBalanced (here {s} e) = new-IsBalanced s (new_semaphore-IsFresh m laws (pos limit) s e)
  Reach-IsBalanced (next r st) = Step-IsBalanced st (Reach-IsBalanced r)

  -- In every such interleaving a goroutine that holds its units got no more than the limit, and its
  -- Release does not panic.
  pub holding-releases :
      (s : System m) (before after : List Pc) (n : ℕ)
      → Reach m limit s
      → s.threads ≡ before ++ holding n ∷ after
      → (n ≤ limit) × ((i : S) × (m.leave s.sem.inner n ≡ some i))
  holding-releases s before after n r e =
      let v = Reach-IsBalanced r in
      let lent = ap (total units) e ∙ total-append units before (holding n ∷ after) in
      (omega (arith, v.lent, v.within), laws.leaves s.sem.inner n (omega (arith, v.lent)))
