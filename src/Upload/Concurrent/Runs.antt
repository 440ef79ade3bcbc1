-- ===== src/Upload/Concurrent/Runs.antt =====
-- Runs of the goroutines of upload/handler.go and conntracker/conntracker.go, with no new ones,
-- and a measure that each move makes smaller.
use deliverator.Base.{
  ℕ, zero, suc, ◌+◌, ◌<◌, ◌≡◌, ap, ◌∙◌, arith, List, ◌∷◌, ◌++◌, total, total-append,
}
use deliverator.Semaphore.{Msemaphore, Semaphore}
use deliverator.Semaphore.System.{
  Pc, start, refused, blocked, entered, cancelled, holding, finished, try_ok, try_fail,
  count_waiter, grant, cancel, return_held, return_error, release_held, Move as Access,
}
use deliverator.Upload.Handler.{Handler}
use deliverator.Upload.Concurrent.{
  Update, reads, divides, crashed, compares, stores, applies, done, Phase, acquiring, pacing,
  uploading, rebalancing, connected, inserted, rating, setting, ended, IsAcquiring, Change,
  unlimited, none_active, some_active, divide, crash, same, differs, store, apply, Move, acquires,
  begins, paces, starts, unwinds, releases, rebalances, returns, inserts, unpaced, paced, loads,
  sets, System,
}

-- The moves that a goroutine has left, at most.
abbrev update_rank : Update → ℕ
update_rank reads = 5
update_rank divides = 4
update_rank (compares p) = 3
update_rank (stores p) = 2
update_rank (applies p) = 1
update_rank done = 0
update_rank crashed = 0

abbrev acquire_rank : Pc → ℕ
acquire_rank (start n) = 18
acquire_rank (refused n) = 17
acquire_rank (blocked n) = 16
acquire_rank (entered n) = 15
acquire_rank (holding n) = 14
acquire_rank (cancelled n) = 1
acquire_rank finished = 0

abbrev pub rank : Phase → ℕ
rank (acquiring p) = acquire_rank p
rank (pacing n u) = 8 + update_rank u
rank (uploading n) = 7
rank (rebalancing u) = 1 + update_rank u
rank connected = 4
rank (inserted c) = 3
rank (rating c) = 2
rank (setting c p) = 1
rank ended = 0

module _ {S : Type 0} (m : Msemaphore S) where
  -- A number of moves from one state to another, each into a phase that satisfies Q.
  pub data Run (Q : Phase → Type 0) : System m → ℕ → System m → Type 0 where
    stop : {s : System m} → Run Q s zero s
    first :
        {s t : System m} {k : ℕ} (before after : List Phase) {p q : Phase} {h : Handler S}
        → s.threads ≡ before ++ p ∷ after
        → Move m s.handler p h q
        → Q q
        → Run Q (record { handler = h; threads = before ++ q ∷ after }) k t
        → Run Q s (suc k) t

  Change-rank : {h k : Handler S} {u v : Update} → Change m h u k v → update_rank v < update_rank u
  Change-rank (unlimited e) = omega arith
  Change-rank (none_active e n z) = omega arith
  Change-rank (some_active e n z) = omega arith
  Change-rank (divide e d) = omega arith
  Change-rank (crash e d) = omega arith
  Change-rank (same e) = omega arith
  Change-rank (differs n) = omega arith
  Change-rank store = omega arith
  Change-rank (apply s) = omega arith

  Access-rank :
      {s t : Semaphore S} {p q : Pc}
      → Access m s p t q
      → IsAcquiring p
      → acquire_rank q < acquire_rank p
  Access-rank (try_ok e) i = omega arith
  Access-rank (try_fail e) i = omega arith
  Access-rank count_waiter i = omega arith
  Access-rank (grant e) i = omega arith
  Access-rank cancel i = omega arith
  Access-rank return_held i = omega arith
  Access-rank return_error i = omega arith
  Access-rank (release_held e) i = absurd i

  Move-rank : {h k : Handler S} {p q : Phase} → Move m h p k q → rank q < rank p
  Move-rank (acquires i mv) = Access-rank mv i
  Move-rank begins = omega arith
  Move-rank (paces c) = omega (arith, Change-rank c)
  Move-rank starts = omega arith
  Move-rank unwinds = omega arith
  Move-rank (releases e) = omega arith
  Move-rank (rebalances c) = omega (arith, Change-rank c)
  Move-rank returns = omega arith
  Move-rank inserts = omega arith
  Move-rank (unpaced e) = omega arith
  Move-rank (paced e) = omega arith
  Move-rank loads = omega arith
  Move-rank (sets s) = omega arith

  pub fewer :
      (ts before after : List Phase) {h k : Handler S} {p q : Phase}
      → ts ≡ before ++ p ∷ after
      → Move m h p k q
      → total rank (before ++ q ∷ after) < total rank ts
  fewer ts before after {p = p} {q} e mv = omega (
    arith,
    Move-rank mv,
    ap (total rank) e ∙ total-append rank before (p ∷ after),
    total-append rank before (q ∷ after),
  )
