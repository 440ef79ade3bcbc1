-- ===== src/Upload/Concurrent/Shares.antt =====
-- The rates that the connections get while many requests to upload/handler.go are served at once.
use deliverator.Base.{
  ℕ, ◌≤◌, ◌≡◌, ◌⊎◌, inl, inr, refl, sym, arith, subst, ap, ◌∙◌, Bool, true, false, ◌&&◌, List, [],
  ◌∷◌, All, All-append, All-split, returned, returned-injective, Bool-cases, if◌then◌else◌,
}
use deliverator.Base.Int.{ℤ, uint64}
use deliverator.Conf.{Conf, upload_bwlimit_bytes}
use deliverator.Semaphore.{Msemaphore}
use deliverator.Semaphore.Laws.{IsCounting}
use deliverator.ConnTracker.Tracker.{
  ConnTracker, Sockets, rate_passed, set_each, set_conn_pacing_rate, add_conn, close, mark_closed,
}
use deliverator.ConnTracker.Pacing.{member, accepts, set_each-rate, set_conn-rate}
use deliverator.Upload.Handler.{Handler, target_pace}
use deliverator.Upload.Handler.Pacing.{target_pace-none, target_pace-divide}
use deliverator.Upload.Concurrent.{
  Update, compares, stores, applies, Phase, pacing, rebalancing, setting, Change, unlimited,
  none_active, some_active, divide, crash, same, differs, store, apply, Move, acquires, begins,
  paces, starts, unwinds, releases, rebalances, returns, inserts, unpaced, paced, loads, sets,
  System, Step, arrives, dials, closes, moves, Reach, here, next,
}
use deliverator.Upload.Concurrent.Units.{Change-keeps, IsAccounted, Reach-accounts}

module _ {S : Type 0} (m : Msemaphore S) (limit : ℤ) (most : ℕ) (first : ℕ → ℕ) where
  -- The share of the limit for some number of parts that may be active at once.
  abbrev pub IsShare : ℕ → Type 0
  IsShare p = (k : ℕ) × (k ≤ most) × (target_pace m limit k ≡ returned p)

  -- A socket that has its first rate, or a share as the kernel gets it.
  abbrev pub IsPaced : ℕ → ℕ → Type 0
  IsPaced c rate = (rate ≡ first c) ⊎ ((p : ℕ) × IsShare p × (rate ≡ rate_passed p))

  abbrev pub OfUpdate : Update → Type 0
  OfUpdate (compares p) = IsShare p
  OfUpdate (stores p) = IsShare p
  OfUpdate (applies p) = IsShare p
  OfUpdate _ = Unit

  abbrev pub OfPhase : Phase → Type 0
  OfPhase (pacing n u) = OfUpdate u
  OfPhase (rebalancing u) = OfUpdate u
  OfPhase (setting c p) = IsShare p
  OfPhase _ = Unit

  pub record IsShared (t : ConnTracker) : Type 0 where
    pub pace : IsShare t.upload_pace
    pub sockets : (c : ℕ) → IsPaced c (t.max_pacing_rate c)

  choose-IsPaced :
      (c rate : ℕ) (b : Bool) (p : ℕ)
      → IsShare p
      → IsPaced c rate
      → IsPaced c (if b then rate_passed p else rate)
  choose-IsPaced c rate true p share h = inr (p, share, refl)
  choose-IsPaced c rate false p share h = h

  module _ (t : ConnTracker) (v : IsShared t) (p : ℕ) (share : IsShare p) (s : Sockets) where
    set_each-IsShared :
        (cs : List ℕ)
        → IsShared (record t { max_pacing_rate = (set_each s t.max_pacing_rate p cs).0 })
    set_each-IsShared cs = record {
      pace = v.pace;
      sockets = λ c. subst (IsPaced c) (sym (set_each-rate s t.max_pacing_rate p cs c)) (
          choose-IsPaced c (t.max_pacing_rate c) (member c cs && accepts s c p) p share
            (v.sockets c));
    }

    set_conn-IsShared :
        (d : ℕ)
        → IsShared (record t { max_pacing_rate = (set_conn_pacing_rate s t.max_pacing_rate d p).0 })
    set_conn-IsShared d = record {
      pace = v.pace;
      sockets = λ c.
          subst (IsPaced c) (sym (set_conn-rate s t.max_pacing_rate d p c))
            (choose-IsPaced c (t.max_pacing_rate c) _ p share (v.sockets c));
    }

  module _ (c : Conf) (bytes : upload_bwlimit_bytes c ≡ returned limit) where
    same-limit : (d : Conf) (z : ℤ) → d ≡ c → upload_bwlimit_bytes d ≡ returned z → z ≡ limit
    same-limit d z e b = returned-injective (sym b ∙ ap upload_bwlimit_bytes e ∙ bytes)

    -- The update from u to v keeps to shares.
    Change-IsShared :
        {h k : Handler S} {u v : Update}
        → Change m h u k v
        → h.conf ≡ c
        → m.get_count h.parallel_uploads.inner ≤ most
        → IsShared h.conn_tracker
        → OfUpdate u
        → IsShared k.conn_tracker × OfUpdate v
    Change-IsShared (unlimited e) same_conf le v o = (v, tt)
    Change-IsShared (none_active e n z) same_conf le v o = (
      v,
      (
        0,
        omega arith,
        subst (λ z. target_pace m limit 0 ≡ returned (uint64 z)) (sym (same-limit _ _ same_conf e))
            (target_pace-none m limit),
      ),
    )
    Change-IsShared (some_active e n z) same_conf le v o = (v, tt)
    Change-IsShared {h = h} (divide {share = q} e d) same_conf le v o = (
      v,
      (
        m.get_count h.parallel_uploads.inner,
        le,
        subst (λ z. target_pace m z (m.get_count h.parallel_uploads.inner) ≡ returned (uint64 q))
            (same-limit _ _ same_conf e) (target_pace-divide m _ q _ d),
      ),
    )
    Change-IsShared (crash e d) same_conf le v o = (v, tt)
    Change-IsShared (same e) same_conf le v o = (v, tt)
    Change-IsShared (differs n) same_conf le v o = (v, o)
    Change-IsShared store same_conf le v o = (record { pace = o; sockets = v.sockets }, o)
    Change-IsShared {h = h} (apply {p} s) same_conf le v o =
        (set_each-IsShared h.conn_tracker v p o s h.conn_tracker.active, tt)

    Move-IsShared :
        {h k : Handler S} {p q : Phase}
        → Move m h p k q
        → h.conf ≡ c
        → m.get_count h.parallel_uploads.inner ≤ most
        → IsShared h.conn_tracker
        → OfPhase p
        → (k.conf ≡ c) × IsShared k.conn_tracker × OfPhase q
    unfolding add_conn
    Move-IsShared (acquires i mv) e le v o = (e, v, tt)
    Move-IsShared begins e le v o = (e, v, tt)
    Move-IsShared (paces ch) e le v o =
        let r = Change-IsShared ch e le v o in ((Change-keeps m ch).1 ∙ e, r.0, r.1)
    Move-IsShared starts e le v o = (e, v, tt)
    Move-IsShared unwinds e le v o = (e, v, tt)
    Move-IsShared (releases r) e le v o = (e, v, tt)
    Move-IsShared (rebalances ch) e le v o =
        let r = Change-IsShared ch e le v o in ((Change-keeps m ch).1 ∙ e, r.0, r.1)
    Move-IsShared returns e le v o = (e, v, tt)
    Move-IsShared inserts e le v o = (e, record { pace = v.pace; sockets = v.sockets }, tt)
    Move-IsShared (unpaced z) e le v o = (e, v, tt)
    Move-IsShared (paced z) e le v o = (e, v, tt)
    Move-IsShared loads e le v o = (e, v, v.pace)
    Move-IsShared {h = h} (sets {c = d} {p = p} s) e le v o =
        (e, set_conn-IsShared h.conn_tracker v p o s d, tt)

    close-IsShared : (k : Sockets) (d : ℕ) (t : ConnTracker) → IsShared t → IsShared (close k d t)
    unfolding close mark_closed
    close-IsShared k d t v = elim (Bool-cases (t.once d)) [
      | inl e ↦ rw e v
      | inr e ↦ rw e (record { pace = v.pace; sockets = v.sockets })
    ]

    pub record Holds (s : System m) : Type 0 where
      pub conf : s.handler.conf ≡ c
      pub shared : IsShared s.handler.conn_tracker
      pub threads : All OfPhase s.threads

    Step-Holds :
        {P : List Phase → Type 0} {s t : System m}
        → Step m P s t
        → m.get_count s.handler.parallel_uploads.inner ≤ most
        → Holds s
        → Holds t
    Step-Holds (arrives n) le v = record {
      conf = v.conf;
      shared = v.shared;
      threads = (tt, v.threads);
    }
    Step-Holds dials le v = record { conf = v.conf; shared = v.shared; threads = (tt, v.threads) }
    Step-Holds (closes k d lt) le v = record {
      conf = v.conf;
      shared = close-IsShared k d _ v.shared;
      threads = v.threads;
    }
    Step-Holds (moves before after {p} {q} e free mv) le v =
        let (ps, rest) = All-split OfPhase before (p ∷ after) (subst (All OfPhase) e v.threads) in
        let (conf, shared, o) = Move-IsShared mv v.conf le v.shared rest.0 in
        record {
          conf = conf;
          shared = shared;
          threads = All-append OfPhase before (q ∷ after) ps (o, rest.1);
        }

    module _ (laws : IsCounting m) {h : Handler S}
        (accounted : IsAccounted m laws most (record { handler = h; threads = [] }))
        (holds : Holds (record { handler = h; threads = [] })) where
      pub Reach-Holds : {P : List Phase → Type 0} {s : System m} → Reach m P h s → Holds s
      Reach-Holds here = holds
      Reach-Holds (next r st) =
          Step-Holds st (Reach-accounts m laws most accounted r).within (Reach-Holds r)
