-- ===== src/Upload/Concurrent/Alone.antt =====
-- A goroutine of the concurrent handler of upload/handler.go that runs without interruption does
-- what the operations do as one step.
mod Finishes
mod Runs
pub use Finishes.{quiet, is-zero, not-zero, not-eq, Alone, still, then_moves}
use Finishes.{Alone-Finishes}
use Runs.{reads-runs, uploading-runs, connected-runs}
use deliverator.Base.{
  ℕ, String, ◌≡◌, ◌≢◌, ◌↔◌, refl, sym, subst, ap, ◌∙◌, arith, true, false, none, returned, panicked,
  >>=-eq-returned, returned-injective, Bool-cases, Option-cases, inl, inr, if◌then◌else◌, ltb, ◌==◌,
  ==_iff, ==-false,
}
use deliverator.Base.Int.{ℤ, uint64, pos, eq_ℤ}
use deliverator.Util.{rounded}
use deliverator.Util.Bounds.{div_ceil-returned}
use deliverator.Conf.{upload_bwlimit_bytes}
use deliverator.Semaphore.{Msemaphore, release}
use deliverator.ConnTracker.Tracker.{
  Sockets, info, set_each, set_conn_pacing_rate, add_conn, conn, pace_new, dial_context,
  set_pacing_rate,
}
use deliverator.ConnTracker.TcpInfo.{empty}
use deliverator.Upload.Handler.{Handler, target_pace, update_pacing_rate, finish}
use deliverator.Upload.Handler.Pacing.{
  target_pace-none, target_pace-divide, never-crashes, pos-not_zero,
}
use deliverator.Upload.Concurrent.{
  Update, reads, divides, crashed, compares, stores, applies, done, Phase, uploading, rebalancing,
  connected, inserted, rating, setting, ended, record_pace, record_rates, Change, unlimited,
  none_active, some_active, divide, crash, same, differs, store, apply, Move, acquires, begins,
  paces, starts, unwinds, releases, rebalances, returns, inserts, unpaced, paced, loads, sets,
}

module _ {S : Type 0} (m : Msemaphore S) where
  -- A goroutine that no other one interrupts does what the operation does in one step: from the end
  -- of its upload on, a request makes the changes of its deferred calls, and the deferred
  -- updatePacingRate alone those of that; and a connection that was made, those of DialContext. In
  -- both directions: what the operation can do, for some answers of the sockets, such a run can do,
  -- and no such run does anything else.
  pub alone_lem :
      (h l : Handler S)
      → ((n : ℕ)
          → Alone m h (uploading n) l ended ↔ ((s : Sockets) × (finish m n s h ≡ returned l)))
        × (Alone m h (rebalancing reads) l ended
            ↔ ((s : Sockets) × (update_pacing_rate m s h ≡ returned l)))
        × (Alone m h connected l ended ↔ (
            (s : Sockets) × (l
              ≡ record h { conn_tracker = (dial_context s conn h.conn_tracker).0 })))
  alone_lem h l = (
    λ n. (λ a. Alone-Finishes m l a refl, λ (s, e). uploading-runs m s n l still e),
    (λ a. Alone-Finishes m l a refl, λ (s, e). reads-runs m s l still e),
    (
      λ a. Alone-Finishes m l a refl,
      λ (s, e). subst (λ x. Alone m h connected x ended) (sym e) (connected-runs m s still),
    ),
  )
