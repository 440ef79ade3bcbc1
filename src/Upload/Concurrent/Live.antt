-- ===== src/Upload/Concurrent/Live.antt =====
-- No request to upload/handler.go waits for ever: from every reachable state all goroutines can end,
-- with none that gives up in the queue, if each asks for no more units than there are.
use deliverator.Base.{
  ℕ, zero, suc, ◌≤◌, ◌≡◌, inl, inr, subst, arith, List, ◌∷◌, ◌++◌, All, All-append, All-split,
  total, returned,
}
use deliverator.Base.Int.{pos_part}
use deliverator.Conf.{Conf}
use deliverator.Semaphore.{Msemaphore, Semaphore}
use deliverator.Semaphore.Laws.{IsCounting}
use deliverator.Semaphore.System.{
  Pc, try_ok, try_fail, count_waiter, grant, cancel, return_held, return_error, release_held,
  Move as Access,
}
use deliverator.ConnTracker.Tracker.{Sockets}
use deliverator.Upload.Handler.{Handler, new_s3nd_handler}
use deliverator.Upload.Concurrent.{
  Phase, Move, acquires, begins, paces, starts, unwinds, releases, rebalances, returns, inserts,
  unpaced, paced, loads, sets, System, Step, moves, Reach, Free,
}
use deliverator.Upload.Concurrent.Units.{IsAccounted, Step-IsAccounted}
use deliverator.Upload.Concurrent.Runs.{rank, Run, stop, first, fewer}
use deliverator.Upload.Concurrent.Progress.{IsFinal, IsPatient, FitsIn, IsFitting, progress}
use deliverator.Upload.Concurrent.Start.{made-accounts}

-- All goroutines end, in some number of moves.
abbrev pub CanEnd : {S : Type 0} (m : Msemaphore S) → System m → Type 0
CanEnd m s = (k : ℕ) × (t : System m) × Run m IsPatient s k t × All IsFinal t.threads

module _ {S : Type 0} (m : Msemaphore S) (laws : IsCounting m) (most : ℕ) where
  Access-fits : {s t : Semaphore S} {p q : Pc} → Access m s p t q → FitsIn most p → FitsIn most q
  Access-fits (try_ok e) f = tt
  Access-fits (try_fail e) f = f
  Access-fits count_waiter f = f
  Access-fits (grant e) f = tt
  Access-fits cancel f = tt
  Access-fits return_held f = tt
  Access-fits return_error f = tt
  Access-fits (release_held e) f = tt

  Move-fits : {h k : Handler S} {p q : Phase} → Move m h p k q → IsFitting most p → IsFitting most q
  Move-fits (acquires i mv) f = Access-fits mv f
  Move-fits begins f = tt
  Move-fits (paces c) f = tt
  Move-fits starts f = tt
  Move-fits unwinds f = tt
  Move-fits (releases e) f = tt
  Move-fits (rebalances c) f = tt
  Move-fits returns f = tt
  Move-fits inserts f = tt
  Move-fits (unpaced e) f = tt
  Move-fits (paced e) f = tt
  Move-fits loads f = tt
  Move-fits (sets s) f = tt

  goes-on :
      (s : System m) (before after : List Phase) {p q : Phase} {h : Handler S}
      → s.threads ≡ before ++ p ∷ after
      → Move m s.handler p h q
      → All (IsFitting most) s.threads
      → All (IsFitting most) (before ++ q ∷ after)
  goes-on s before after {p} {q} e mv fits =
      let (fs, gs) =
        All-split (IsFitting most) before (p ∷ after) (subst (All (IsFitting most)) e fits) in
      All-append (IsFitting most) before (q ∷ after) fs (Move-fits mv gs.0, gs.1)

  fuel-CanEnd :
      (fuel : ℕ) (s : System m)
      → total rank s.threads ≤ fuel
      → IsAccounted m laws most s
      → All (IsFitting most) s.threads
      → CanEnd m s
  fuel-CanEnd zero s le v fits = elim (progress m laws most s v fits) [
    | inl fs ↦ (0, s, stop, fs)
    | inr (before, after, p, e, (q, h, mv, patient)) ↦
        absurd (omega (arith, fewer m s.threads before after e mv))
  ]
  fuel-CanEnd (suc fuel) s le v fits = elim (progress m laws most s v fits) [
    | inl fs ↦ (0, s, stop, fs)
    | inr (before, after, p, e, (q, h, mv, patient)) ↦
        let after_move : System m = record { handler = h; threads = before ++ q ∷ after } in
        let st : Step m Free s after_move = moves before after e tt mv in
        let (k, t, r, fs) =
          fuel-CanEnd fuel after_move (omega (arith, fewer m s.threads before after e mv))
            (Step-IsAccounted m laws most st v) (goes-on s before after e mv fits) in
        (suc k, t, first before after e mv patient r, fs)
  ]

-- From the handler of NewS3ndHandler on, with a semaphore that keeps the laws of its documentation,
-- in every reachable state whose queued requests ask for no more than upload_max_parallel units
-- each, all goroutines can go on, without new ones and without a request whose time in the queue
-- runs out, until each of them has returned, or has panicked after it released its units.
pub made-CanEnd :
    {S : Type 0} (m : Msemaphore S) (laws : IsCounting m) (k : Sockets) (c : Conf) (rates : ℕ → ℕ)
    {h : Handler S}
    → new_s3nd_handler m k c rates ≡ returned h
    → {s : System m} → Reach m Free h s
    → All (IsFitting (pos_part c.upload_max_parallel)) s.threads
    → CanEnd m s
made-CanEnd m laws k c rates made {s} r fits =
    fuel-CanEnd m laws (pos_part c.upload_max_parallel) (total rank s.threads) s (omega arith)
      (made-accounts m k c rates made laws r) fits
