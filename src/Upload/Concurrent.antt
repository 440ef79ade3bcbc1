-- ===== src/Upload/Concurrent.antt =====
-- Any number of requests to upload/handler.go at once, with the goroutines in which net/http dials,
-- interleaved at every access to the semaphore, to the recorded pacing rate and to the mutex.
pub mod Units
pub mod Alone
pub mod Shares
pub mod Start
pub mod Calm
pub mod Scenes
pub mod Races
pub mod Lock
pub mod Refines
pub mod Crash
pub mod Starves
pub mod Runs
pub mod Progress
pub mod Live
pub mod Samples
mod Examples
use deliverator.Base.{ℕ, ◌<◌, ◌≡◌, ◌≢◌, some, List, [], ◌∷◌, ◌++◌, returned, panicked, String}
use deliverator.Base.Int.{ℤ, pos, uint64}
use deliverator.Util.{div_ceil}
use deliverator.Conf.{upload_bwlimit_bytes}
use deliverator.Semaphore.{Msemaphore, Semaphore, release}
use deliverator.Semaphore.System.{Pc, start, holding, finished, Move as Access}
use deliverator.ConnTracker.Tracker.{Sockets, set_each, set_conn_pacing_rate, add_conn, close}
use deliverator.Upload.Handler.{Handler}

-- Where a call of updatePacingRate stands.
pub data Update : Type 0 where
  -- before the first GetCount
  reads : Update
  -- the count was not 0, and is read again for DivCeil
  divides : Update
  -- SetPacingRate was called with a rate, and compares it with the recorded one
  compares : ℕ → Update
  -- the rates differ, and the new one is not recorded yet
  stores : ℕ → Update
  -- the rate is recorded, and the mutex is not taken yet
  applies : ℕ → Update
  done : Update
  -- DivCeil has panicked
  crashed : Update

-- Where a goroutine stands: a request that parseRequest let through, or a call of DialContext.
pub data Phase : Type 0 where
  -- in Acquire
  acquiring : Pc → Phase
  -- with its units, in the first updatePacingRate
  pacing : ℕ → Update → Phase
  -- with its units, in uploadFileMultipart
  uploading : ℕ → Phase
  -- after Release, in the deferred updatePacingRate
  rebalancing : Update → Phase
  -- the connection is made, and not in the map yet
  connected : Phase
  -- it is in the map, and the recorded rate is not compared with 0 yet
  inserted : ℕ → Phase
  -- there is a rate to set, which is not read yet
  rating : ℕ → Phase
  -- the rate was read, and the socket does not have it yet
  setting : ℕ → ℕ → Phase
  ended : Phase

-- Inside Acquire, which has not returned.
abbrev pub IsAcquiring : Pc → Type 0
IsAcquiring (holding n) = ⊥
IsAcquiring finished = ⊥
IsAcquiring _ = Unit

-- A tracker with another recorded rate, and with other rates of its sockets.
abbrev pub record_pace : {S : Type 0} → ℕ → Handler S → Handler S
record_pace p h = record h { conn_tracker = record h.conn_tracker { upload_pace = p } }

abbrev pub record_rates : {S : Type 0} → (ℕ → ℕ) → Handler S → Handler S
record_rates rates h = record h { conn_tracker = record h.conn_tracker { max_pacing_rate = rates } }

module _ {S : Type 0} (m : Msemaphore S) where
  -- A step of updatePacingRate.
  pub data Change (h : Handler S) : Update → Handler S → Update → Type 0 where
    unlimited : upload_bwlimit_bytes h.conf ≡ returned (pos 0) → Change h reads h done
    none_active :
        {limit : ℤ}
        → upload_bwlimit_bytes h.conf ≡ returned limit
        → limit ≢ pos 0
        → m.get_count h.parallel_uploads.inner ≡ 0
        → Change h reads h (compares (uint64 limit))
    some_active :
        {limit : ℤ}
        → upload_bwlimit_bytes h.conf ≡ returned limit
        → limit ≢ pos 0
        → m.get_count h.parallel_uploads.inner ≢ 0
        → Change h reads h divides
    divide :
        {limit share : ℤ}
        → upload_bwlimit_bytes h.conf ≡ returned limit
        → div_ceil limit (pos (m.get_count h.parallel_uploads.inner)) ≡ returned share
        → Change h divides h (compares (uint64 share))
    crash :
        {limit : ℤ} {msg : String}
        → upload_bwlimit_bytes h.conf ≡ returned limit
        → div_ceil limit (pos (m.get_count h.parallel_uploads.inner)) ≡ panicked msg
        → Change h divides h crashed
    same : {p : ℕ} → p ≡ h.conn_tracker.upload_pace → Change h (compares p) h done
    differs : {p : ℕ} → p ≢ h.conn_tracker.upload_pace → Change h (compares p) h (stores p)
    store : {p : ℕ} → Change h (stores p) (record_pace p h) (applies p)
    apply :
        {p : ℕ} (s : Sockets)
        → Change h
            (applies p)
            (record_rates (set_each s h.conn_tracker.max_pacing_rate p h.conn_tracker.active).0 h)
            done

  -- A move of one goroutine, and of the handler with it.
  pub data Move (h : Handler S) : Phase → Handler S → Phase → Type 0 where
    acquires :
        {p q : Pc} {sem : Semaphore S}
        → IsAcquiring p
        → Access m h.parallel_uploads p sem q
        → Move h (acquiring p) (record h { parallel_uploads = sem }) (acquiring q)
    begins : {n : ℕ} → Move h (acquiring (holding n)) h (pacing n reads)
    paces :
        {n : ℕ} {u v : Update} {k : Handler S} → Change h u k v → Move h (pacing n u) k (pacing n v)
    starts : {n : ℕ} → Move h (pacing n done) h (uploading n)
    -- The deferred calls run, as they do after an upload.
    unwinds : {n : ℕ} → Move h (pacing n crashed) h (uploading n)
    releases :
        {n : ℕ} {sem : Semaphore S}
        → release m n h.parallel_uploads ≡ some sem
        → Move h (uploading n) (record h { parallel_uploads = sem }) (rebalancing reads)
    rebalances :
        {u v : Update} {k : Handler S} → Change h u k v → Move h (rebalancing u) k (rebalancing v)
    returns : Move h (rebalancing done) h ended
    inserts :
        Move h connected
          (record h { conn_tracker = add_conn h.conn_tracker })
          (inserted h.conn_tracker.next)
    unpaced : {c : ℕ} → h.conn_tracker.upload_pace ≡ 0 → Move h (inserted c) h ended
    paced : {c : ℕ} → 0 < h.conn_tracker.upload_pace → Move h (inserted c) h (rating c)
    loads : {c : ℕ} → Move h (rating c) h (setting c h.conn_tracker.upload_pace)
    sets :
        {c p : ℕ} (s : Sockets)
        → Move h
            (setting c p)
            (record_rates (set_conn_pacing_rate s h.conn_tracker.max_pacing_rate c p).0 h)
            ended

  pub record System : Type 0 where
    pub handler : Handler S
    pub threads : List Phase

  -- A step of the system. P restricts the goroutines beside the one that moves.
  pub data Step (P : List Phase → Type 0) (s : System) : System → Type 0 where
    arrives : (n : ℕ) → Step P s (record s { threads = acquiring (start n) ∷ s.threads })
    dials : Step P s (record s { threads = connected ∷ s.threads })
    closes :
        (k : Sockets) (c : ℕ)
        → c < s.handler.conn_tracker.next
        → Step P s (record s {
          handler = record s.handler { conn_tracker = close k c s.handler.conn_tracker };
        })
    moves :
        (before after : List Phase) {p q : Phase} {h : Handler S}
        → s.threads ≡ before ++ p ∷ after
        → P (before ++ after)
        → Move s.handler p h q
        → Step P s (record { handler = h; threads = before ++ q ∷ after })

  -- From a handler that no request has reached yet.
  pub data Reach (P : List Phase → Type 0) (h : Handler S) : System → Type 0 where
    here : Reach P h (record { handler = h; threads = [] })
    next : {s t : System} → Reach P h s → Step P s t → Reach P h t

-- Every interleaving.
abbrev pub Free : List Phase → Type 0
Free ts = Unit
