-- ===== src/Semaphore/Examples.antt =====
-- Runs of the semaphore over a plain counter, and its theorems at concrete inputs.
use deliverator.Base.{refl, [], ◌∷◌}
use deliverator.Semaphore.Laws.{counter, counter-IsCounting}
use deliverator.Semaphore.System.{
  blocked, holding, try_ok, try_fail, count_waiter, System, arrives, moves, Reach, here, next,
}
use deliverator.Semaphore.Invariant.{IsBalanced, Reach-IsBalanced}

-- Of a limit of 10, one goroutine has 7, and another is blocked on 5.
abbrev contended : System counter
contended = record {
  sem = record { inner = record { count = 7; limit = 10 }; waiters = 1 };
  threads = blocked 5 ∷ holding 7 ∷ [];
}

contended-Reach : Reach counter 10 contended
contended-Reach =
    next
      (next
        (next
          (next
            (next (here {s = record { inner = record { count = 0; limit = 10 }; waiters = 0 }} refl)
              (arrives 7))
            (moves [] [] refl (try_ok {i = record { count = 7; limit = 10 }} refl)))
          (arrives 5))
        (moves [] (holding 7 ∷ []) refl (try_fail refl)))
      (moves [] (holding 7 ∷ []) refl count_waiter)

Reach-IsBalanced_example : IsBalanced counter counter-IsCounting 10 contended
Reach-IsBalanced_example = Reach-IsBalanced counter counter-IsCounting 10 contended-Reach
