-- ===== src/ConnTracker/Tracker.antt =====
-- ConnTracker and TrackedConn of conntracker/conntracker.go. Each operation holds the mutex where
-- it reads or writes the map, and is one step here.
use deliverator.Base.{
  ℕ, suc, ◌+◌, ◌%◌, ◌^◌, Bool, true, false, Option, none, some, List, [], ◌∷◌, ltb, ◌==◌,
  if◌then◌else◌, length,
}
use deliverator.Errors.{GoError, wrap, join, plain}
use deliverator.ConnTracker.TcpInfo.{TcpInfo, empty, add_tcp_info}

-- A *TrackedConn is a number. `active` holds the keys of the map in the order of an iteration over
-- it. `once` and `max_pacing_rate` are state of the connections: the sync.Once, and the rate that
-- the kernel has for the socket. `next` is the next pointer that is free.
pub record ConnTracker : Type 0 where
  pub active : List ℕ
  pub tcp_info_sum_closed : TcpInfo
  pub closed : ℕ
  pub upload_pace : ℕ
  pub once : ℕ → Bool
  pub max_pacing_rate : ℕ → ℕ
  pub next : ℕ

-- NewConnTracker, with sockets that have the rates given.
unfoldable pub new_conn_tracker : (ℕ → ℕ) → ConnTracker
new_conn_tracker rates = record {
  active = [];
  tcp_info_sum_closed = empty;
  closed = 0;
  upload_pace = 0;
  once = λ c. false;
  max_pacing_rate = rates;
  next = 0;
}

-- The system calls on a connection's socket during an operation: the error of SyscallConn, of
-- RawConn.Control, of setsockopt for a rate, and the answer of getsockopt for TCP_INFO.
pub data Answer : Type 0 where
  info : TcpInfo → Answer
  failed : GoError → Answer

pub record Sockets : Type 0 where
  pub syscall_conn : ℕ → Option GoError
  pub control : ℕ → Option GoError
  pub set_rate : ℕ → ℕ → Option GoError
  pub get_info : ℕ → Answer

-- f with another value at i.
unfoldable pub update {ℓ} : {A : Type ℓ} → (ℕ → A) → ℕ → A → ℕ → A
update f i a j = if i == j then a else f j

-- syscall.SetsockoptInt passes its argument to the kernel as an int32, of which it keeps 32 bits.
abbrev pub rate_passed : ℕ → ℕ
rate_passed pace = pace % 2 ^ 32

-- errors.Join of a list: nil if there is none.
abbrev pub join_all : List GoError → Option GoError
join_all [] = none
join_all (e ∷ es) = elim (join_all es) [ none ↦ some e | some f ↦ some (join e f) ]

-- What dialer.DialContext gives: an error, a net.Conn that cannot be tracked, or one that can.
pub data Dialed : Type 0 where
  dial_error : GoError → Dialed
  untrackable : Dialed
  conn : Dialed

-- delete(t.active, c)
unfoldable pub delete : ℕ → List ℕ → List ℕ
delete c [] = []
delete c (d ∷ ds) = if d == c then ds else d ∷ delete c ds

-- newTrackedConn, whose sync.Once is new, and the insertion into the map.
unfoldable pub add_conn : ConnTracker → ConnTracker
add_conn t = record t {
  active = t.next ∷ t.active;
  once = update t.once t.next false;
  next = suc t.next;
}

module _ (s : Sockets) where
  open s use {syscall_conn, control, set_rate, get_info}

  -- The error of TrackedConn.setPacingRate.
  unfoldable pub rate_error : ℕ → ℕ → Option GoError
  rate_error c pace = elim (syscall_conn c) [
    | some e ↦ some (wrap e "unable to obtain syscall.RawConn")
    | none ↦ elim (control c) [ some e ↦ some e | none ↦ set_rate c pace ]
  ]

  -- TrackedConn.setPacingRate: the rates of the sockets afterwards, and the error.
  unfoldable pub set_conn_pacing_rate : (ℕ → ℕ) → ℕ → ℕ → (ℕ → ℕ) × Option GoError
  set_conn_pacing_rate rates c pace = elim (rate_error c pace) [
    | some e ↦ (rates, some e)
    | none ↦ (update rates c (rate_passed pace), none)
  ]

  -- TrackedConn.tcpInfo.
  unfoldable pub conn_tcp_info : ℕ → Answer
  conn_tcp_info c = elim (syscall_conn c) [
    | some e ↦ failed (wrap e "unable to obtain syscall.RawConn")
    | none ↦ elim (control c) [
      | some e ↦ failed (wrap e "unable to get TCP_INFO")
      | none ↦ elim (get_info c) [
        | failed e ↦ failed (wrap e "unable to get TCP_INFO")
        | info i ↦ info i
      ]
    ]
  ]

  -- The loop of SetPacingRate over the connections: the rates, and the errors.
  unfoldable pub set_each : (ℕ → ℕ) → ℕ → List ℕ → (ℕ → ℕ) × List GoError
  set_each rates pace [] = (rates, [])
  set_each rates pace (c ∷ cs) =
      let (rates', e) = set_conn_pacing_rate rates c pace in
      let (rates'', es) = set_each rates' pace cs in
      (rates'', elim e [ none ↦ es | some x ↦ x ∷ es ])

  -- SetPacingRate.
  unfoldable pub set_pacing_rate : ℕ → ConnTracker → ConnTracker × Option GoError
  set_pacing_rate pace t =
      if pace == t.upload_pace
      then (t, none)
      else let (rates, es) = set_each t.max_pacing_rate pace t.active in
        (record t { upload_pace = pace; max_pacing_rate = rates }, join_all es)

  -- The end of DialContext for a connection that has to be paced.
  unfoldable pub pace_new : ℕ → ConnTracker → ConnTracker × Option ℕ × Option GoError
  pace_new c t =
      let (rates, e) = set_conn_pacing_rate t.max_pacing_rate c t.upload_pace in
      (record t { max_pacing_rate = rates }, some c, e)

  -- DialContext: the connection and the error that it returns.
  unfoldable pub dial_context : Dialed → ConnTracker → ConnTracker × Option ℕ × Option GoError
  dial_context (dial_error e) t = (t, none, some e)
  dial_context untrackable t = (t, none, some (plain "unable to cast net.Conn to TrackableConn"))
  dial_context conn t =
      let t' : ConnTracker = add_conn t in
      if ltb 0 t'.upload_pace then pace_new t.next t' else (t', some t.next, none)

  -- markClosed.
  unfoldable pub mark_closed : ℕ → ConnTracker → ConnTracker
  mark_closed c t = record t {
    tcp_info_sum_closed = elim (conn_tcp_info c) [
      | failed e ↦ t.tcp_info_sum_closed
      | info i ↦ add_tcp_info t.tcp_info_sum_closed i
    ];
    active = delete c t.active;
    closed = (t.closed + 1) % 2 ^ 64;
  }

  -- TrackedConn.Close, but for the error of the wrapped Conn's Close.
  unfoldable pub close : ℕ → ConnTracker → ConnTracker
  close c t = if t.once c then t else mark_closed c (record t { once = update t.once c true })

  -- The loop of TcpInfo over the connections: the sum, the round trip times, and the errors.
  unfoldable pub sum_each : TcpInfo → List ℕ → TcpInfo × List ℕ × List GoError
  sum_each acc [] = (acc, [], [])
  sum_each acc (c ∷ cs) =
      let a = conn_tcp_info c in
      let (acc', rtts, es) =
        sum_each (elim a [ failed e ↦ acc | info i ↦ add_tcp_info acc i ]) cs in
      (
        acc',
        elim a [ failed e ↦ rtts | info i ↦ i.rtt ∷ rtts ],
        elim a [ failed e ↦ wrap e "getConnTcpInfo()" ∷ es | info i ↦ es ],
      )

  -- TcpInfo. `mean` is uint32(stat.Mean(rtts, nil)).
  unfoldable pub tcp_info : (List ℕ → ℕ) → ConnTracker → TcpInfo × Option GoError
  tcp_info mean t =
      let (live, rtts, es) = sum_each empty t.active in
      (record (add_tcp_info t.tcp_info_sum_closed live) { rtt = mean rtts }, join_all es)

-- PacingRate.
abbrev pub pacing_rate : ConnTracker → ℕ
pacing_rate t = t.upload_pace

-- Connections: the number of active and of closed connections.
unfoldable pub connections : ConnTracker → ℕ × ℕ
connections t = (length t.active, t.closed)
