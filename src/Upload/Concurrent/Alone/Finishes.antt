-- ===== src/Upload/Concurrent/Alone/Finishes.antt =====
-- What a run of one goroutine of the concurrent handler of upload/handler.go has still to do.
use deliverator.Base.{
  ℕ, ◌≡◌, ◌≢◌, sym, ap, ◌∙◌, arith, true, false, none, returned, returned-injective, if◌then◌else◌,
  ltb, ◌==◌, ==_iff, ==-false,
}
use deliverator.Base.Int.{ℤ, uint64, pos, eq_ℤ}
use deliverator.Conf.{upload_bwlimit_bytes}
use deliverator.Semaphore.{Msemaphore}
use deliverator.ConnTracker.Tracker.{
  Sockets, info, set_each, set_conn_pacing_rate, add_conn, conn, pace_new, dial_context,
  set_pacing_rate,
}
use deliverator.ConnTracker.TcpInfo.{empty}
use deliverator.Upload.Handler.{Handler, target_pace, update_pacing_rate, finish}
use deliverator.Upload.Handler.Pacing.{target_pace-none, target_pace-divide, never-crashes}
use deliverator.Upload.Concurrent.{
  Update, reads, divides, crashed, compares, stores, applies, done, Phase, uploading, rebalancing,
  connected, inserted, rating, setting, ended, record_pace, record_rates, Change, unlimited,
  none_active, some_active, divide, crash, same, differs, store, apply, Move, acquires, begins,
  paces, starts, unwinds, releases, rebalances, returns, inserts, unpaced, paced, loads, sets,
}

-- Sockets without errors.
abbrev pub quiet : Sockets
quiet = record {
  syscall_conn = λ c. none;
  control = λ c. none;
  set_rate = λ c p. none;
  get_info = λ c. info empty;
}

nonzero : (z : ℤ) → z ≢ pos 0 → eq_ℤ z (pos 0) ≡ false
nonzero z h = ground arith

pub is-zero : (z : ℤ) → eq_ℤ z (pos 0) ≡ true → z ≡ pos 0
is-zero z h = ground arith

pub not-zero : (z : ℤ) → eq_ℤ z (pos 0) ≡ false → z ≢ pos 0
not-zero z h = ground arith

pub not-eq : (a b : ℕ) → (a == b) ≡ false → a ≢ b
not-eq a b h = ground arith

module _ {S : Type 0} (m : Msemaphore S) where
  -- The moves of one goroutine, with no other in between.
  pub data Alone (h : Handler S) (p : Phase) : Handler S → Phase → Type 0 where
    still : Alone h p h p
    then_moves : {k l : Handler S} {q r : Phase} → Alone h p k q → Move m k q l r → Alone h p l r

  -- What is left of an operation, as one step from h to l.
  abbrev pub Updates : Update → Handler S → Handler S → Type 0
  Updates reads h l = (s : Sockets) × (update_pacing_rate m s h ≡ returned l)
  Updates divides h l =
      (limit : ℤ)
      → upload_bwlimit_bytes h.conf ≡ returned limit
      → limit ≢ pos 0
      → m.get_count h.parallel_uploads.inner ≢ 0
      → (s : Sockets) × (update_pacing_rate m s h ≡ returned l)
  Updates crashed h l = Unit
  Updates (compares p) h l =
      (s : Sockets) × (l ≡ record h { conn_tracker = (set_pacing_rate s p h.conn_tracker).0 })
  Updates (stores p) h l =
      (s : Sockets) × (l
        ≡ record_rates (set_each s h.conn_tracker.max_pacing_rate p h.conn_tracker.active).0
            (record_pace p h))
  Updates (applies p) h l =
      (s : Sockets) × (l
        ≡ record_rates (set_each s h.conn_tracker.max_pacing_rate p h.conn_tracker.active).0 h)
  Updates done h l = l ≡ h

  updates-by :
      (s : Sockets) (h l : Handler S) (limit : ℤ) (p : ℕ)
      → upload_bwlimit_bytes h.conf ≡ returned limit
      → limit ≢ pos 0
      → target_pace m limit (m.get_count h.parallel_uploads.inner) ≡ returned p
      → l ≡ record h { conn_tracker = (set_pacing_rate s p h.conn_tracker).0 }
      → update_pacing_rate m s h ≡ returned l
  unfolding update_pacing_rate
  updates-by s h l limit p e n t d =
      rw (update_pacing_rate, e, nonzero limit n, t) (ap returned (sym d))

  Change-Updates :
      {h k : Handler S} {u v : Update} (l : Handler S)
      → Change m h u k v
      → Updates v k l
      → Updates u h l
  unfolding update_pacing_rate set_pacing_rate
  Change-Updates {h = h} l (unlimited e) d =
      (quiet, rw (update_pacing_rate, e) (ap returned (sym d)))
  Change-Updates {h = h} l (none_active {limit} e n z) (s, d) =
      (s, updates-by s h l limit (uint64 limit) e n (rw z (target_pace-none m limit)) d)
  Change-Updates l (some_active {limit} e n z) d = d limit e n z
  Change-Updates {h = h} l (divide {limit} {share} e d) (s, u) = λ limit' e' n z. (
    s,
    updates-by s h l limit (uint64 share) e (λ o. n (returned-injective (sym e' ∙ e) ∙ o))
        (target_pace-divide m limit share _ d) u,
  )
  Change-Updates {h = h} l (crash {limit} e d) u =
      λ limit' e' n z. absurd (never-crashes limit _ z d)
  Change-Updates {h = h} l (same {p} e) d =
      (quiet, rw (set_pacing_rate, (==_iff p h.conn_tracker.upload_pace).1 e) d)
  Change-Updates {h = h} l (differs {p} n) (s, d) =
      (s, rw (set_pacing_rate, ==-false p h.conn_tracker.upload_pace n) d)
  Change-Updates l store d = d
  Change-Updates l (apply s) d = (s, d)

  abbrev pub Finishes : Phase → Handler S → Handler S → Type 0
  Finishes (uploading n) h l = (s : Sockets) × (finish m n s h ≡ returned l)
  Finishes (rebalancing u) h l = Updates u h l
  Finishes connected h l =
      (s : Sockets) × (l ≡ record h { conn_tracker = (dial_context s conn h.conn_tracker).0 })
  Finishes (inserted c) h l =
      (s : Sockets) × (l ≡ record h {
        conn_tracker =
            if ltb 0 h.conn_tracker.upload_pace
            then (pace_new s c h.conn_tracker).0
            else h.conn_tracker;
      })
  Finishes (rating c) h l =
      (s : Sockets) × (l ≡ record h { conn_tracker = (pace_new s c h.conn_tracker).0 })
  Finishes (setting c p) h l =
      (s : Sockets) × (l
        ≡ record_rates (set_conn_pacing_rate s h.conn_tracker.max_pacing_rate c p).0 h)
  Finishes ended h l = l ≡ h
  Finishes _ h l = Unit

  Move-Finishes :
      {h k : Handler S} {p q : Phase} (l : Handler S)
      → Move m h p k q
      → Finishes q k l
      → Finishes p h l
  unfolding finish dial_context pace_new add_conn
  Move-Finishes l (acquires i mv) d = tt
  Move-Finishes l begins d = tt
  Move-Finishes l (paces c) d = tt
  Move-Finishes l starts d = tt
  Move-Finishes l unwinds d = tt
  Move-Finishes l (releases e) (s, d) = (s, rw (finish, e) d)
  Move-Finishes l (rebalances c) d = Change-Updates l c d
  Move-Finishes l returns d = d
  Move-Finishes {h = h} l inserts (s, d) = (s, ground arith)
  Move-Finishes {h = h} l (unpaced e) d = (quiet, ground arith)
  Move-Finishes {h = h} l (paced e) (s, d) = (s, ground arith)
  Move-Finishes l loads d = d
  Move-Finishes l (sets s) d = (s, d)

  pub Alone-Finishes :
      {h : Handler S} {p : Phase} {k : Handler S} {q : Phase} (l : Handler S)
      → Alone h p k q
      → Finishes q k l
      → Finishes p h l
  Alone-Finishes l still d = d
  Alone-Finishes l (then_moves a mv) d = Alone-Finishes l a (Move-Finishes l mv d)
