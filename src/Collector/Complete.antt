-- ===== src/Collector/Complete.antt =====
-- Collect of collector/collector.go sends what Describe describes.
use deliverator.Base.{
  ℕ, ◌+◌, ◌≡◌, ◌∙◌, ap, refl, arith, String, none, List, [], ◌∷◌, ◌++◌, map, returned, str_eq,
  if◌then◌else◌, total, total-append, ap₂,
}
use deliverator.Base.Int.{ℤ, pos}
use deliverator.Util.Bounds.{div_ceil-returned}
use deliverator.Util.{rounded}
use deliverator.Conf.{upload_bwlimit_bytes}
use deliverator.Semaphore.{Msemaphore}
use deliverator.ConnTracker.TcpInfo.{TcpInfo}
use deliverator.ConnTracker.Tracker.{Sockets, tcp_info, connections, pacing_rate}
use deliverator.Upload.Task.{Float64}
use deliverator.Upload.Handler.{Handler}
use deliverator.Collector.{
  descs, counter_value, gauge_value, Metric, send, counters, gauges, collect,
}

-- How often a name is in a list.
abbrev pub occurrences : String → List String → ℕ
occurrences name ns = total (λ n. if str_eq n name then 1 else 0) ns

-- The names that Describe announces, and those that Collect sent.
abbrev pub described : List String
described = map (λ d. d.1.name) descs

abbrev pub sent : {F : Type 0} → List (Metric F) → List String
sent ms = map (λ x. x.desc.name) ms

abbrev counter_names : List String
counter_names =
    "s3nd_s3_tcp_info_bytes_acked_total" ∷ "s3nd_s3_tcp_info_bytes_received_total"
    ∷ "s3nd_s3_tcp_info_bytes_retrans_total" ∷ "s3nd_s3_tcp_info_bytes_sent_total"
    ∷ "s3nd_s3_tcp_info_dsack_dups_total" ∷ "s3nd_s3_tcp_info_fackets_total"
    ∷ "s3nd_s3_tcp_info_lost_total" ∷ "s3nd_s3_tcp_info_rcv_ooopack_total"
    ∷ "s3nd_s3_tcp_info_reord_seen_total" ∷ "s3nd_s3_tcp_info_retrans_total"
    ∷ "s3nd_s3_tcp_info_sacked_total" ∷ "s3nd_s3_tcp_info_total_retrans_total"
    ∷ "s3nd_s3_tcp_conn_closed_total" ∷ []

abbrev gauge_names : List String
gauge_names =
    "s3nd_s3_tcp_info_rtt_seconds" ∷ "s3nd_upload_parts_active" ∷ "s3nd_upload_queued"
    ∷ "s3nd_s3_tcp_conn_active" ∷ "s3nd_s3_tcp_conn_pace_bytes" ∷ "s3nd_s3_tcp_conn_pace_max_bytes"
    ∷ []

all_described :
    (name : String)
    → occurrences name counter_names + occurrences name gauge_names ≡ occurrences name described
all_described name = omega arith

occurrences-append :
    (name : String) (ns ks : List String)
    → occurrences name (ns ++ ks) ≡ occurrences name ns + occurrences name ks
occurrences-append name ns ks = total-append (λ n. if str_eq n name then 1 else 0) ns ks

module _ {F : Type 0} (fl : Float64 F) where
  counters-sent :
      (i : TcpInfo) (closed : ℕ)
      → (ms : List (Metric F)) × (send counter_value (counters fl i closed) ≡ returned ms)
        × (sent ms ≡ counter_names)
  unfolding send
  counters-sent i closed = (_, refl, refl)

  gauges-sent :
      (i : TcpInfo) (parts waiters active pace : ℕ) (limit : ℤ)
      → (ms : List (Metric F)) × (send gauge_value (gauges fl i parts waiters active pace limit)
          ≡ returned ms)
        × (sent ms ≡ gauge_names)
  unfolding send
  gauges-sent i parts waiters active pace limit = (_, refl, refl)

sent-append : {F : Type 0} (xs ys : List (Metric F)) → sent (xs ++ ys) ≡ sent xs ++ sent ys
sent-append [] ys = refl
sent-append (x ∷ xs) ys = ap (λ ns. x.desc.name ∷ ns) (sent-append xs ys)

module _ {S : Type 0} (m : Msemaphore S) {F : Type 0} (fl : Float64 F) (s : Sockets)
    (mean : List ℕ → ℕ) (registry : List (Metric F)) (h : Handler S) where
  -- If no connection fails to give its TCP_INFO, Collect does not panic. It sends first what the
  -- registry's Collect sends, and then every metric that Describe describes as often as that does, and
  -- no other.
  pub collect_complete :
      (tcp_info s mean h.conn_tracker).1 ≡ none
      → (ms : List (Metric F)) × (collect fl m registry s mean h ≡ returned (registry ++ ms))
        × ((name : String) → occurrences name (sent ms) ≡ occurrences name described)
  unfolding collect upload_bwlimit_bytes
  collect_complete e =
      let (i, err) = tcp_info s mean h.conn_tracker in
      let (active, closed) = connections h.conn_tracker in
      let limit = rounded h.conf.upload_bwlimit.value (pos 8) in
      let (cs, ec, nc) = counters-sent fl i closed in
      let (gs, eg, ng) =
        gauges-sent fl i (m.get_count h.parallel_uploads.inner) h.parallel_uploads.waiters active
          (pacing_rate h.conn_tracker) limit in
      (
        cs ++ gs,
        rw (collect, e, ec, div_ceil-returned h.conf.upload_bwlimit.value (pos 8) (λ z. cc), eg),
        λ name.
            ap (occurrences name) (sent-append cs gs)
            ∙ occurrences-append name (sent cs) (sent gs)
            ∙ ap₂ (λ ns ks. occurrences name ns + occurrences name ks) nc ng
            ∙ all_described name,
      )
