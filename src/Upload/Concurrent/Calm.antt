-- ===== src/Upload/Concurrent/Calm.antt =====
-- When no update of the pacing rate of upload/handler.go is overtaken by another goroutine, the
-- limit is shared out among exactly the parts that are active.
mod Rates
pub use Rates.{Calm, IsUpdated, IsSettled, nonzero}
use Rates.{IsIdle, OfPhase, idle-OfPhase, count_of, IsRight, Move-IsRight}
use deliverator.Base.{
  ℕ, ◌+◌, ◌*◌, ◌^◌, ◌≤◌, ◌<◌, ◌≡◌, ◌≢◌, refl, sym, subst, ap, ◌∙◌, arith, List, ◌∷◌, All,
  All-append, All-split, All-map, returned, returned-injective, Bool-cases, inl, inr, total,
}
use deliverator.Base.Int.{ℤ, uint64, pos, pos_part}
use deliverator.Conf.{Conf, upload_bwlimit_bytes}
use deliverator.Semaphore.{Msemaphore, Semaphore}
use deliverator.Semaphore.Laws.{IsCounting}
use deliverator.Semaphore.System.{
  Pc, entered, holding, try_ok, try_fail, count_waiter, grant, cancel, return_held, return_error,
  release_held, Move as Access,
}
use deliverator.ConnTracker.Tracker.{ConnTracker, Sockets, add_conn, close, mark_closed}
use deliverator.Upload.Handler.{Handler, new_s3nd_handler, target_pace}
use deliverator.Upload.Handler.Pacing.{
  sharers, target_pace-share, target_pace-none, target_pace-divide, never-crashes,
}
use deliverator.Upload.Concurrent.{
  Update, reads, divides, crashed, compares, stores, applies, done, Phase, acquiring, pacing,
  rebalancing, ended, IsAcquiring, Change, unlimited, none_active, some_active, divide, crash, same,
  differs, store, apply, Move, acquires, begins, paces, starts, unwinds, releases, rebalances,
  returns, inserts, unpaced, paced, loads, sets, System, Step, arrives, dials, closes, moves, Reach,
  here, next,
}
use deliverator.Upload.Concurrent.Units.{units}
use deliverator.Upload.Concurrent.Start.{made-IsRight, made-conf, made-accounts, sharers_mono}

module _ {S : Type 0} (m : Msemaphore S) (limit : ℤ) (limited : limit ≢ pos 0) (c : Conf)
    (bytes : upload_bwlimit_bytes c ≡ returned limit) where
  record IsCalm (s : System m) : Type 0 where
    settled : All IsSettled s.threads → IsRight m limit s.handler
    updates :
        All
          (OfPhase m limit (count_of m limit s.handler) s.handler.conn_tracker.upload_pace)
          s.threads

  close-pace : (k : Sockets) (d : ℕ) (t : ConnTracker) → (close k d t).upload_pace ≡ t.upload_pace
  unfolding close mark_closed
  close-pace k d t = elim (Bool-cases (t.once d)) [ inl e ↦ rw (close, e) | inr e ↦ rw (close, e) ]

  Step-IsCalm : {s t : System m} → Step m Calm s t → s.handler.conf ≡ c → IsCalm s → IsCalm t
  Step-IsCalm (arrives n) ce v = record { settled = λ i. v.settled i.1; updates = (tt, v.updates) }
  Step-IsCalm dials ce v = record { settled = λ i. v.settled i.1; updates = (tt, v.updates) }
  Step-IsCalm {s = s} (closes k d lt) ce v =
      let e = sym (close-pace k d s.handler.conn_tracker) in
      record {
        settled = λ i. v.settled i ∙ ap returned e;
        updates =
            subst (λ p. All (OfPhase m limit (count_of m limit s.handler) p) s.threads) e v.updates;
      }
  Step-IsCalm {s = s} (moves before after {p} {q} {h} e idle mv) ce v =
      let (ps, rest) =
        All-split (OfPhase m limit (count_of m limit s.handler) s.handler.conn_tracker.upload_pace)
          before (p ∷ after)
          (subst
            (All (OfPhase m limit (count_of m limit s.handler) s.handler.conn_tracker.upload_pace))
            e v.updates) in
      let (is, js) = All-split IsIdle before after idle in
      let now : Phase → Type 0 = OfPhase m limit (count_of m limit h) h.conn_tracker.upload_pace in
      let others : (ts : List Phase) → All IsIdle ts → All now ts =
        All-map IsIdle now (idle-OfPhase m limit (count_of m limit h) h.conn_tracker.upload_pace) in
      let (o, right) = Move-IsRight m limit limited c bytes mv ce rest.0 in
      record {
        settled = λ i.
            let (x, y) = All-split IsSettled before (q ∷ after) i in
            right
              (λ sp. v.settled (
                subst (All IsSettled) (sym e)
                  (All-append IsSettled before (p ∷ after) x (sp, y.1))))
              y.0;
        updates = All-append now before (q ∷ after) (others before is) (o, others after js);
      }

module _ {S : Type 0} (m : Msemaphore S) (k : Sockets) (c : Conf) (rates : ℕ → ℕ) {h : Handler S}
    (made : new_s3nd_handler m k c rates ≡ returned h) (laws : IsCounting m) (n : ℕ)
    (limited : 0 < n) (fits : n + sharers (pos_part c.upload_max_parallel) ≤ 2 ^ 63)
    (bytes : upload_bwlimit_bytes c ≡ returned (pos n)) where
  Reach-IsCalm :
      {s : System m} → Reach m Calm h s → IsCalm m (pos n) (λ e. nonzero n limited e) c bytes s
  Reach-IsCalm here = record {
    settled = λ i. made-IsRight m k c rates made laws n limited fits bytes;
    updates = tt;
  }
  Reach-IsCalm (next r st) =
      Step-IsCalm m (pos n) (λ e. nonzero n limited e) c bytes st
        (made-conf m k c rates made laws n limited fits bytes r) (Reach-IsCalm r)

  -- From the handler of NewS3ndHandler on, with a semaphore that keeps the laws of its
  -- documentation and a bandwidth limit of n bytes per second, at least 1, where n and
  -- upload_max_parallel, or 1 if that is below, are together at most 2 ^ 63: if no goroutine moves
  -- while another one is between the two ends of an update of the pacing rate, then whenever every
  -- change of the count of the semaphore has been followed by an update, the recorded rate is n
  -- over the active parts, rounded up. With p the number of active parts, or 1 if that is 0, p
  -- times the rate reaches n, and exceeds it by less than p.
  pub exact_share :
      {s : System m}
      → Reach m Calm h s
      → All IsSettled s.threads
      → (n ≤ s.handler.conn_tracker.upload_pace * sharers (total units s.threads))
        × (s.handler.conn_tracker.upload_pace * sharers (total units s.threads)
            < n + sharers (total units s.threads))
  exact_share {s = s} r settled =
      let right = (Reach-IsCalm r).settled settled in
      let v = made-accounts m k c rates made laws r in
      let count : ℕ = total units s.threads in
      let (p, e, lo, hi) =
        target_pace-share m n count
          (omega (arith, sharers_mono count (pos_part c.upload_max_parallel), v.lent, v.within)) in
      let pace-p : p ≡ s.handler.conn_tracker.upload_pace =
        returned-injective (sym e ∙ ap (target_pace m (pos n)) (sym v.lent) ∙ right) in
      subst (λ p. (n ≤ p * sharers count) × (p * sharers count < n + sharers count)) pace-p (lo, hi)
