-- ===== src/Semaphore.antt =====
-- semaphore/semaphore.go: a weighted semaphore that counts its waiters.
pub mod Laws
pub mod Acquire
pub mod Units
mod Examples
pub mod System
pub mod Invariant
use deliverator.Base.{
  ℕ, ◌+◌, ◌-◌, ◌%◌, ◌^◌, Option, none, some, List, [], ◌∷◌, Outcome, returned, ◌>>=◌,
}
use deliverator.Base.Int.{ℤ}
use deliverator.Errors.{GoError}

-- The methods of github.com/marusama/semaphore/v2 that the program calls, over its states.
-- `new` may panic on a limit. `enter s n` takes n units, and is `none` where there is no room for
-- them: TryAcquire reports that, and Acquire waits. `leave s n` is Release, and `none` where it
-- panics.
pub record Msemaphore (S : Type 0) : Type 0 where
  pub new : ℤ → Outcome S
  pub enter : S → ℕ → Option S
  pub leave : S → ℕ → Option S
  pub get_count : S → ℕ
  pub get_limit : S → ℕ

-- Semaphore; `waiters` is a uint32.
pub record Semaphore (S : Type 0) : Type 0 where
  pub inner : S
  pub waiters : ℕ

-- waiters.Add(1) and waiters.Add(^uint32(0)).
abbrev pub add_waiter : {S : Type 0} → Semaphore S → Semaphore S
add_waiter s = record s { waiters = (s.waiters + 1) % 2 ^ 32 }

abbrev pub drop_waiter : {S : Type 0} → Semaphore S → Semaphore S
drop_waiter s = record s { waiters = (s.waiters + (2 ^ 32 - 1)) % 2 ^ 32 }

-- What a blocked Acquire meets: what the other goroutines did before each time that it looked for
-- room, the error of the context if there never was any, and the first error of the callbacks.
pub record Wait (S : Type 0) : Type 0 where
  pub others : List (Semaphore S → Semaphore S)
  pub ctx_err : GoError
  pub callback_err : Option GoError

module _ {S : Type 0} (m : Msemaphore S) where
  -- New.
  abbrev pub new_semaphore : ℤ → Outcome (Semaphore S)
  new_semaphore limit = do inner ← m.new limit; returned (record { inner = inner; waiters = 0 })

  -- The inner Acquire.
  unfoldable pub block :
      ℕ → GoError → List (Semaphore S → Semaphore S) → Semaphore S → Semaphore S × Option GoError
  block n e [] s = (s, some e)
  block n e (other ∷ others) s = elim (m.enter (other s).inner n) [
    | some i ↦ (record (other s) { inner = i }, none)
    | none ↦ block n e others (other s)
  ]

  -- The return of Acquire after it has blocked.
  abbrev pub unblock : Option GoError → Semaphore S × Option GoError → Semaphore S × Option GoError
  unblock none (s, e) = (drop_waiter s, e)
  unblock (some c) (s, e) = (drop_waiter s, some c)

  -- Acquire.
  unfoldable pub acquire : ℕ → Wait S → Semaphore S → Semaphore S × Option GoError
  acquire n w s = elim (m.enter s.inner n) [
    | some i ↦ (record s { inner = i }, none)
    | none ↦ unblock w.callback_err (block n w.ctx_err w.others (add_waiter s))
  ]

  -- Release.
  abbrev pub release : ℕ → Semaphore S → Option (Semaphore S)
  release n s = elim (m.leave s.inner n) [ some i ↦ some (record s { inner = i }) | none ↦ none ]
