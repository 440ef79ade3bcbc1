-- ===== src/Collector/Readings.antt =====
-- What Collect of collector/collector.go reports while many requests are served.
use deliverator.Base.{
  All, Bool, true, false, ◌||◌, Bool-cases, inl, inr, sym, eq_iff, ◌≢◌, ℕ, ◌++◌, subst, ◌%◌, ◌^◌,
  ◌≡◌, refl, ap, ◌∙◌, String, Option, none, some, List, [], ◌∷◌, length, returned, str_eq,
  if◌then◌else◌, total,
}
use deliverator.Base.Int.{ℤ, pos}
use deliverator.Conf.{Conf, upload_bwlimit_bytes}
use deliverator.Semaphore.{Msemaphore}
use deliverator.Semaphore.Laws.{IsCounting}
use deliverator.ConnTracker.TcpInfo.{TcpInfo}
use deliverator.ConnTracker.Tracker.{Sockets, tcp_info, connections}
use deliverator.Upload.Task.{Float64}
use deliverator.Upload.Handler.{Handler, new_s3nd_handler}
use deliverator.Upload.Concurrent.{Phase, System, Reach}
use deliverator.Upload.Concurrent.Units.{units, waits, Reach-conf}
use deliverator.Upload.Concurrent.Start.{made-accounts, made-semaphore}
use deliverator.Collector.{
  registered, counter_value, gauge_value, Metric, send, counters, gauges, collect,
}

abbrev contains : String → List String → Bool
contains name [] = false
contains name (k ∷ ks) = str_eq name k || contains name ks

true-ne-false : true ≢ false
true-ne-false e = cc

-- The value of the first metric of a name.
abbrev pub reading : {F : Type 0} → String → List (Metric F) → Option F
reading name [] = none
reading name (x ∷ xs) = if str_eq x.desc.name name then some x.value else reading name xs

-- The gauges of a handler, for a number of active parts, of queued requests and of connections, a
-- rate and a limit.
abbrev pub Reads : {F : Type 0} → Float64 F → ℕ → ℕ → ℕ → ℕ → ℤ → List (Metric F) → Type 0
Reads fl parts queued active pace limit ms =
    (reading "s3nd_upload_parts_active" ms ≡ some (fl.of_int64 (pos parts)))
    × (reading "s3nd_upload_queued" ms ≡ some (fl.of_int64 (pos queued)))
    × (reading "s3nd_s3_tcp_conn_active" ms ≡ some (fl.of_int64 (pos active)))
    × (reading "s3nd_s3_tcp_conn_pace_bytes" ms ≡ some (fl.of_int64 (pos pace)))
    × (reading "s3nd_s3_tcp_conn_pace_max_bytes" ms ≡ some (fl.of_int64 limit))

-- A metric of the registry of upload/handler.go: it has one of the names there.
abbrev pub IsRegistered : {F : Type 0} → Metric F → Type 0
IsRegistered x = contains x.desc.name registered ≡ true

contains-not :
    (name other : String) (ns : List String)
    → contains other ns ≡ true
    → contains name ns ≡ false
    → str_eq other name ≡ false
contains-not name other ns among absent = elim (Bool-cases (str_eq other name)) [
  | inr e ↦ e
  | inl e ↦
      absurd
        (true-ne-false (sym among ∙ ap (λ x. contains x ns) ((eq_iff other name).0 e) ∙ absent))
]

-- The registry has no metric of a name that is not among its own.
reading-registry :
    {F : Type 0} (name : String) (rs ms : List (Metric F))
    → contains name registered ≡ false
    → All IsRegistered rs
    → reading name (rs ++ ms) ≡ reading name ms
reading-registry name [] ms absent h = refl
reading-registry name (x ∷ rs) ms absent h =
    rw (contains-not name x.desc.name registered h.0 absent)
      (reading-registry name rs ms absent h.1)

module _ {F : Type 0} (fl : Float64 F) where
  registry-Reads :
      (rs ms : List (Metric F)) (parts queued active pace : ℕ) (limit : ℤ)
      → All IsRegistered rs
      → Reads fl parts queued active pace limit ms
      → Reads fl parts queued active pace limit (rs ++ ms)
  registry-Reads rs ms parts queued active pace limit h r = (
    reading-registry "s3nd_upload_parts_active" rs ms refl h ∙ r.0,
    reading-registry "s3nd_upload_queued" rs ms refl h ∙ r.1,
    reading-registry "s3nd_s3_tcp_conn_active" rs ms refl h ∙ r.2,
    reading-registry "s3nd_s3_tcp_conn_pace_bytes" rs ms refl h ∙ r.3,
    reading-registry "s3nd_s3_tcp_conn_pace_max_bytes" rs ms refl h ∙ r.4,
  )

  -- No counter has the name of one of the gauges.
  counters-Reads :
      (i : TcpInfo) (closed : ℕ)
      → (cs : List (Metric F)) × (send counter_value (counters fl i closed) ≡ returned cs)
        × ((parts queued active pace : ℕ) (limit : ℤ) (gs : List (Metric F))
            → Reads fl parts queued active pace limit gs
            → Reads fl parts queued active pace limit (cs ++ gs))
  unfolding send
  counters-Reads i closed = (_, refl, λ parts queued active pace limit gs r. r)

  gauges-Reads :
      (i : TcpInfo) (parts queued active pace : ℕ) (limit : ℤ)
      → (gs : List (Metric F)) × (send gauge_value (gauges fl i parts queued active pace limit)
          ≡ returned gs)
        × Reads fl parts queued active pace limit gs
  unfolding send
  gauges-Reads i parts queued active pace limit = (_, refl, (refl, refl, refl, refl, refl))

module _ {S : Type 0} (m : Msemaphore S) {F : Type 0} (fl : Float64 F) (k : Sockets)
    (mean : List ℕ → ℕ) (registry : List (Metric F)) (names : All IsRegistered registry) where
  collect-Reads :
      (h : Handler S) (limit : ℤ)
      → (tcp_info k mean h.conn_tracker).1 ≡ none
      → upload_bwlimit_bytes h.conf ≡ returned limit
      → (ms : List (Metric F)) × (collect fl m registry k mean h ≡ returned ms)
        × Reads fl
            (m.get_count h.parallel_uploads.inner)
            h.parallel_uploads.waiters
            (length h.conn_tracker.active)
            h.conn_tracker.upload_pace
            limit
            ms
  unfolding collect connections
  collect-Reads h limit e b =
      let i = (tcp_info k mean h.conn_tracker).0 in
      let parts = m.get_count h.parallel_uploads.inner in
      let queued = h.parallel_uploads.waiters in
      let active = length h.conn_tracker.active in
      let pace = h.conn_tracker.upload_pace in
      let (cs, ec, pass) = counters-Reads fl i h.conn_tracker.closed in
      let (gs, eg, r) = gauges-Reads fl i parts queued active pace limit in
      (
        registry ++ (cs ++ gs),
        rw (collect, e, ec, b, eg) refl,
        registry-Reads fl registry (cs ++ gs) parts queued active pace limit names
            (pass parts queued active pace limit gs r),
      )

  -- While any number of requests are served and connections dialed and closed, in every
  -- interleaving from the handler of NewS3ndHandler on, with a semaphore that keeps the laws of its
  -- documentation: if no connection fails to give its TCP_INFO, and the registry has only metrics
  -- of the names that upload/handler.go registers, Collect, taken as one step, does not panic, and
  -- it reports as active parts those of the requests that have acquired their units and not
  -- released them, as queued the requests that are blocked, modulo 2 ^ 32, as active connections
  -- the tracker's, as their rate the recorded one, and as the largest rate the bandwidth limit.
  pub collect-readings :
      (laws : IsCounting m) (o : Sockets) (c : Conf) (rates : ℕ → ℕ) (limit : ℤ) {h : Handler S}
      → new_s3nd_handler m o c rates ≡ returned h
      → upload_bwlimit_bytes c ≡ returned limit
      → {P : List Phase → Type 0} {s : System m} → Reach m P h s
      → (tcp_info k mean s.handler.conn_tracker).1 ≡ none
      → (ms : List (Metric F)) × (collect fl m registry k mean s.handler ≡ returned ms)
        × Reads fl
            (total units s.threads)
            (total waits s.threads % 2 ^ 32)
            (length s.handler.conn_tracker.active)
            s.handler.conn_tracker.upload_pace
            limit
            ms
  collect-readings laws o c rates limit made bytes {s = s} r e =
      let v = made-accounts m o c rates made laws r in
      let conf = Reach-conf m r ∙ (made-semaphore m o c rates made).1 in
      let (ms, sent, reads) =
        collect-Reads s.handler limit e (ap upload_bwlimit_bytes conf ∙ bytes) in
      (
        ms,
        sent,
        subst
            (λ q.
              Reads fl (total units s.threads) q (length s.handler.conn_tracker.active)
                s.handler.conn_tracker.upload_pace limit ms)
            v.counted
            (subst
              (λ q.
                Reads fl q s.handler.parallel_uploads.waiters (length s.handler.conn_tracker.active)
                  s.handler.conn_tracker.upload_pace limit ms)
              v.lent reads),
      )
