-- ===== src/Semaphore/System.antt =====
-- Any number of goroutines in Acquire and Release of semaphore/semaphore.go, as the upload handler
-- calls them, interleaved at every access to shared state.
use deliverator.Base.{ℕ, ◌≡◌, none, some, List, [], ◌∷◌, ◌++◌, returned}
use deliverator.Base.Int.{pos}
use deliverator.Semaphore.{Msemaphore, Semaphore, new_semaphore, add_waiter, drop_waiter}

-- Where a goroutine stands that wants n units.
pub data Pc : Type 0 where
  -- before TryAcquire
  start : ℕ → Pc
  -- TryAcquire failed, and the waiter is not counted yet
  refused : ℕ → Pc
  -- in the inner Acquire
  blocked : ℕ → Pc
  -- the inner Acquire succeeded, and the waiter is still counted
  entered : ℕ → Pc
  -- the context ended, and the waiter is still counted
  cancelled : ℕ → Pc
  -- Acquire returned nil: the upload runs
  holding : ℕ → Pc
  -- after Release, or after Acquire returned an error
  finished : Pc

module _ {S : Type 0} (m : Msemaphore S) where
  -- A move of one goroutine from p to q, and of the semaphore with it.
  pub data Move (s : Semaphore S) : Pc → Semaphore S → Pc → Type 0 where
    try_ok :
        {n : ℕ} {i : S}
        → m.enter s.inner n ≡ some i
        → Move s (start n) (record s { inner = i }) (holding n)
    try_fail : {n : ℕ} → m.enter s.inner n ≡ none → Move s (start n) s (refused n)
    count_waiter : {n : ℕ} → Move s (refused n) (add_waiter s) (blocked n)
    grant :
        {n : ℕ} {i : S}
        → m.enter s.inner n ≡ some i
        → Move s (blocked n) (record s { inner = i }) (entered n)
    cancel : {n : ℕ} → Move s (blocked n) s (cancelled n)
    return_held : {n : ℕ} → Move s (entered n) (drop_waiter s) (holding n)
    return_error : {n : ℕ} → Move s (cancelled n) (drop_waiter s) finished
    release_held :
        {n : ℕ} {i : S}
        → m.leave s.inner n ≡ some i
        → Move s (holding n) (record s { inner = i }) finished

  pub record System : Type 0 where
    pub sem : Semaphore S
    pub threads : List Pc

  pub data Step (s : System) : System → Type 0 where
    arrives : (n : ℕ) → Step s (record s { threads = start n ∷ s.threads })
    moves :
        (before after : List Pc) {p q : Pc} {sem : Semaphore S}
        → s.threads ≡ before ++ p ∷ after
        → Move s.sem p sem q
        → Step s (record { sem = sem; threads = before ++ q ∷ after })

  pub data Reach (limit : ℕ) : System → Type 0 where
    here :
        {s : Semaphore S}
        → new_semaphore m (pos limit) ≡ returned s
        → Reach limit (record { sem = s; threads = [] })
    next : {s t : System} → Reach limit s → Step s t → Reach limit t
