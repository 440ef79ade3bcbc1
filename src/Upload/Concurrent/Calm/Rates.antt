-- ===== src/Upload/Concurrent/Calm/Rates.antt =====
-- The recorded rate of upload/handler.go within an update that nothing overtakes.
use deliverator.Base.{
  ℕ, ◌<◌, ◌≡◌, ◌≢◌, refl, sym, subst, ap, ◌∙◌, arith, List, All, returned, returned-injective,
}
use deliverator.Base.Int.{ℤ, uint64, pos}
use deliverator.Conf.{Conf, upload_bwlimit_bytes}
use deliverator.Semaphore.{Msemaphore, Semaphore}
use deliverator.Semaphore.System.{
  Pc, entered, holding, try_ok, try_fail, count_waiter, grant, cancel, return_held, return_error,
  release_held, Move as Access,
}
use deliverator.ConnTracker.Tracker.{add_conn}
use deliverator.Upload.Handler.{Handler, target_pace}
use deliverator.Upload.Handler.Pacing.{target_pace-none, target_pace-divide, never-crashes}
use deliverator.Upload.Concurrent.{
  Update, reads, divides, crashed, compares, stores, applies, done, Phase, acquiring, pacing,
  rebalancing, ended, IsAcquiring, Change, unlimited, none_active, some_active, divide, crash, same,
  differs, store, apply, Move, acquires, begins, paces, starts, unwinds, releases, rebalances,
  returns, inserts, unpaced, paced, loads, sets,
}

-- Not within an update.
abbrev pub IsOutside : Update → Type 0
IsOutside reads = Unit
IsOutside done = Unit
IsOutside _ = ⊥

abbrev pub IsIdle : Phase → Type 0
IsIdle (pacing n u) = IsOutside u
IsIdle (rebalancing u) = IsOutside u
IsIdle _ = Unit

-- No goroutine but the one that moves is within an update.
abbrev pub Calm : List Phase → Type 0
Calm ts = All IsIdle ts

-- The goroutine's last change of the count has been followed by its update.
abbrev pub IsUpdated : Update → Type 0
IsUpdated done = Unit
IsUpdated _ = ⊥

abbrev pub IsSettled : Phase → Type 0
IsSettled (acquiring (entered n)) = ⊥
IsSettled (acquiring (holding n)) = ⊥
IsSettled (pacing n u) = IsUpdated u
IsSettled (rebalancing u) = IsUpdated u
IsSettled _ = Unit

pub nonzero : (n : ℕ) → 0 < n → pos n ≢ pos 0
nonzero n h = ground arith

module _ {S : Type 0} (m : Msemaphore S) (limit : ℤ) where
  -- What holds within an update, for a count and a recorded rate.
  abbrev pub OfUpdate : ℕ → ℕ → Update → Type 0
  OfUpdate count pace divides = count ≢ 0
  OfUpdate count pace crashed = ⊥
  OfUpdate count pace (compares p) = target_pace m limit count ≡ returned p
  OfUpdate count pace (stores p) = target_pace m limit count ≡ returned p
  OfUpdate count pace (applies p) = (target_pace m limit count ≡ returned p) × (pace ≡ p)
  OfUpdate count pace _ = Unit

  abbrev pub OfPhase : ℕ → ℕ → Phase → Type 0
  OfPhase count pace (pacing n u) = OfUpdate count pace u
  OfPhase count pace (rebalancing u) = OfUpdate count pace u
  OfPhase count pace _ = Unit

  idle-OfUpdate : (count pace : ℕ) (u : Update) → IsOutside u → OfUpdate count pace u
  idle-OfUpdate count pace reads i = tt
  idle-OfUpdate count pace done i = tt
  idle-OfUpdate count pace divides i = absurd i
  idle-OfUpdate count pace crashed i = absurd i
  idle-OfUpdate count pace (compares p) i = absurd i
  idle-OfUpdate count pace (stores p) i = absurd i
  idle-OfUpdate count pace (applies p) i = absurd i

  pub idle-OfPhase : (count pace : ℕ) (t : Phase) → IsIdle t → OfPhase count pace t
  idle-OfPhase count pace (pacing n u) i = idle-OfUpdate count pace u i
  idle-OfPhase count pace (rebalancing u) i = idle-OfUpdate count pace u i
  idle-OfPhase count pace ended i = tt
  idle-OfPhase count pace _ i = tt

  abbrev pub count_of : Handler S → ℕ
  count_of h = m.get_count h.parallel_uploads.inner

  -- The recorded rate is that for the count.
  abbrev pub IsRight : Handler S → Type 0
  IsRight h = target_pace m limit (count_of h) ≡ returned h.conn_tracker.upload_pace

  module _ (limited : limit ≢ pos 0) (c : Conf)
      (bytes : upload_bwlimit_bytes c ≡ returned limit) where
    same-limit : (d : Conf) (z : ℤ) → d ≡ c → upload_bwlimit_bytes d ≡ returned z → z ≡ limit
    same-limit d z e b = returned-injective (sym b ∙ ap upload_bwlimit_bytes e ∙ bytes)

    Change-IsRight :
        {h k : Handler S} {u v : Update}
        → Change m h u k v
        → h.conf ≡ c
        → OfUpdate (count_of h) h.conn_tracker.upload_pace u
        → OfUpdate (count_of k) k.conn_tracker.upload_pace v × (IsUpdated v → IsRight k)
    Change-IsRight (unlimited e) ce o = (tt, λ i. absurd (limited (sym (same-limit _ _ ce e))))
    Change-IsRight {h = h} (none_active {limit = l} e n z) ce o =
        (rw (z, same-limit _ l ce e) (target_pace-none m limit), λ i. absurd i)
    Change-IsRight (some_active e n z) ce o = (z, λ i. absurd i)
    Change-IsRight {h = h} (divide {limit = l} {share = q} e d) ce o = (
      subst (λ z. target_pace m z (count_of h) ≡ returned (uint64 q)) (same-limit _ l ce e)
          (target_pace-divide m l q (count_of h) d),
      λ i. absurd i,
    )
    Change-IsRight {h = h} (crash {limit = l} e d) ce o = absurd (never-crashes l (count_of h) o d)
    Change-IsRight (same e) ce o = (tt, λ i. o ∙ ap returned e)
    Change-IsRight (differs n) ce o = (o, λ i. absurd i)
    Change-IsRight store ce o = ((o, refl), λ i. absurd i)
    Change-IsRight (apply s) ce o = (tt, λ i. o.0 ∙ ap returned (sym o.1))

    Access-IsRight :
        (h : Handler S) {p q : Pc} {sem : Semaphore S}
        → Access m h.parallel_uploads p sem q
        → IsAcquiring p
        → (IsSettled (acquiring p) → IsRight h)
        → IsSettled (acquiring q)
        → IsRight (record h { parallel_uploads = sem })
    Access-IsRight h (try_ok e) a r i = absurd i
    Access-IsRight h (try_fail e) a r i = r tt
    Access-IsRight h count_waiter a r i = r tt
    Access-IsRight h (grant e) a r i = absurd i
    Access-IsRight h cancel a r i = r tt
    Access-IsRight h return_held a r i = absurd i
    Access-IsRight h return_error a r i = r tt
    Access-IsRight h (release_held e) a r i = absurd a

    -- A move into a settled state keeps the rate right.
    pub Move-IsRight :
        {h k : Handler S} {p q : Phase}
        → Move m h p k q
        → h.conf ≡ c
        → OfPhase (count_of h) h.conn_tracker.upload_pace p
        → OfPhase (count_of k) k.conn_tracker.upload_pace q
          × ((IsSettled p → IsRight h) → IsSettled q → IsRight k)
    unfolding add_conn
    Move-IsRight {h = h} (acquires i mv) ce o = (tt, Access-IsRight h mv i)
    Move-IsRight begins ce o = (tt, λ r i. absurd i)
    Move-IsRight (paces ch) ce o = let (u, right) = Change-IsRight ch ce o in (u, λ r. right)
    Move-IsRight starts ce o = (tt, λ r. r)
    Move-IsRight unwinds ce o = absurd o
    Move-IsRight (releases e) ce o = (tt, λ r i. absurd i)
    Move-IsRight (rebalances ch) ce o = let (u, right) = Change-IsRight ch ce o in (u, λ r. right)
    Move-IsRight returns ce o = (tt, λ r. r)
    Move-IsRight inserts ce o = (tt, λ r. r)
    Move-IsRight (unpaced z) ce o = (tt, λ r. r)
    Move-IsRight (paced z) ce o = (tt, λ r. r)
    Move-IsRight loads ce o = (tt, λ r. r)
    Move-IsRight (sets s) ce o = (tt, λ r. r)
