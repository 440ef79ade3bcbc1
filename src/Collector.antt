-- ===== src/Collector.antt =====
-- collector/collector.go: the Prometheus metrics that describe the handler at one moment.
pub mod Complete
pub mod Readings
mod Examples
use deliverator.Base.{
  ℕ, String, Option, none, some, List, [], ◌∷◌, ◌++◌, Outcome, returned, panicked, ◌>>=◌, str_eq,
  if◌then◌else◌,
}
use deliverator.Base.Int.{ℤ, pos}
use deliverator.Conf.{upload_bwlimit_bytes}
use deliverator.Semaphore.{Msemaphore}
use deliverator.ConnTracker.TcpInfo.{TcpInfo}
use deliverator.ConnTracker.Tracker.{Sockets, tcp_info, pacing_rate, connections}
use deliverator.Upload.Task.{Float64}
use deliverator.Upload.Handler.{Handler}

-- A prometheus.Desc without labels: the name of the metric and its help.
pub record Desc : Type 0 where
  pub name : String
  pub help : String

-- The map `descs` of NewS3ndCollector, which Describe sends, in the order of its literal.
abbrev pub descs : List (String × Desc)
descs =
    (
      "bytes_acked",
      record {
        name = "s3nd_s3_tcp_info_bytes_acked_total";
        help = "tcpi_bytes_acked from tcp_info";
      },
    )
    ∷ (
      "bytes_received",
      record {
        name = "s3nd_s3_tcp_info_bytes_received_total";
        help = "tcpi_bytes_received from tcp_info";
      },
    )
    ∷ (
      "bytes_retrans",
      record {
        name = "s3nd_s3_tcp_info_bytes_retrans_total";
        help = "tcpi_bytes_retrans from tcp_info";
      },
    )
    ∷ (
      "bytes_sent",
      record { name = "s3nd_s3_tcp_info_bytes_sent_total"; help = "tcpi_bytes_sent from tcp_info" },
    )
    ∷ (
      "dsack_dups",
      record { name = "s3nd_s3_tcp_info_dsack_dups_total"; help = "tcpi_dsack_dups from tcp_info" },
    )
    ∷ (
      "fackets",
      record { name = "s3nd_s3_tcp_info_fackets_total"; help = "tcpi_fackets from tcp_info" },
    )
    ∷ ("lost", record { name = "s3nd_s3_tcp_info_lost_total"; help = "tcpi_lost from tcp_info" })
    ∷ (
      "rcv_ooopack",
      record {
        name = "s3nd_s3_tcp_info_rcv_ooopack_total";
        help = "tcpi_rcv_ooopack from tcp_info";
      },
    )
    ∷ (
      "reord_seen",
      record { name = "s3nd_s3_tcp_info_reord_seen_total"; help = "tcpi_reord_seen from tcp_info" },
    )
    ∷ (
      "retrans",
      record { name = "s3nd_s3_tcp_info_retrans_total"; help = "tcpi_retrans from tcp_info" },
    )
    ∷ (
      "rtt",
      record { name = "s3nd_s3_tcp_info_rtt_seconds"; help = "tcpi_rtt from tcp_info in seconds" },
    )
    ∷ (
      "sacked",
      record { name = "s3nd_s3_tcp_info_sacked_total"; help = "tcpi_sacked from tcp_info" },
    )
    ∷ (
      "total_retrans",
      record {
        name = "s3nd_s3_tcp_info_total_retrans_total";
        help = "tcpi_total_retrans from tcp_info";
      },
    )
    ∷ (
      "upload_parts_active",
      record {
        name = "s3nd_upload_parts_active";
        help = "number of upload parts actively transferring";
      },
    )
    ∷ (
      "upload_queued",
      record {
        name = "s3nd_upload_queued";
        help = "number of requests waiting for an upload slot";
      },
    )
    ∷ (
      "conn_active",
      record {
        name = "s3nd_s3_tcp_conn_active";
        help = "number of active tcp connections to the endpoint";
      },
    )
    ∷ (
      "conn_closed_total",
      record {
        name = "s3nd_s3_tcp_conn_closed_total";
        help = "number of tcp connections to the endpoint which have been closed";
      },
    )
    ∷ (
      "conn_pace",
      record {
        name = "s3nd_s3_tcp_conn_pace_bytes";
        help = "the current SO_MAX_PACING_RATE set on active upload sockets in bytes per second";
      },
    )
    ∷ (
      "conn_pace_max",
      record {
        name = "s3nd_s3_tcp_conn_pace_max_bytes";
        help = "the maximum possible pacing rate in bytes per second";
      },
    )
    ∷ []

-- c.descs[name]: nil if the map has no such key.
abbrev pub find_desc : List (String × Desc) → String → Option Desc
find_desc [] key = none
find_desc ((k, d) ∷ ds) key = if str_eq k key then some d else find_desc ds key

-- A histogram is a metric of the registry only.
pub data Kind : Type 0 where
  counter_value gauge_value histogram_value : Kind

-- The names of the metrics of upload/handler.go, which are those of its registry.
abbrev pub registered : List String
registered =
    "s3nd_upload_valid_requests_total" ∷ "s3nd_upload_attempts_total" ∷ "s3nd_upload_retries_total"
    ∷ "s3nd_upload_http_requests_total" ∷ "s3nd_upload_bytes_total" ∷ "s3nd_s3_http_responses_total"
    ∷ "s3nd_s3_api_errors_total" ∷ "s3nd_upload_total_seconds" ∷ "s3nd_upload_queued_seconds"
    ∷ "s3nd_upload_transfer_seconds" ∷ "s3nd_upload_transfer_rate_bytes"
    ∷ "s3nd_upload_transfer_size_bytes" ∷ "s3nd_upload_attempts" ∷ "s3nd_upload_parts" ∷ []

pub record Metric (F : Type 0) : Type 0 where
  pub desc : Desc
  pub kind : Kind
  pub value : F

module _ {F : Type 0} where
  -- prometheus.MustNewConstMetric, which panics without a Desc.
  abbrev pub must_new_const_metric : Kind → F → Option Desc → Outcome (Metric F)
  must_new_const_metric kind value none = panicked "nil pointer dereference"
  must_new_const_metric kind value (some d) =
      returned (record { desc = d; kind = kind; value = value })

  -- The two loops of Collect: the metrics sent, in order.
  unfoldable pub send : Kind → List (String × F) → Outcome (List (Metric F))
  send kind [] = returned []
  send kind ((name, value) ∷ rest) = do
    metric ← must_new_const_metric kind value (find_desc descs name)
    metrics ← send kind rest
    returned (metric ∷ metrics)

  module _ (fl : Float64 F) where
    abbrev number : ℕ → F
    number n = fl.of_int64 (pos n)

    abbrev pub counters : TcpInfo → ℕ → List (String × F)
    counters i closed =
        ("bytes_acked", number i.bytes_acked)
        ∷ ("bytes_received", number i.bytes_received)
        ∷ ("bytes_retrans", number i.bytes_retrans)
        ∷ ("bytes_sent", number i.bytes_sent)
        ∷ ("dsack_dups", number i.dsack_dups)
        ∷ ("fackets", number i.fackets)
        ∷ ("lost", number i.lost)
        ∷ ("rcv_ooopack", number i.rcv_ooopack)
        ∷ ("reord_seen", number i.reord_seen)
        ∷ ("retrans", number i.retrans)
        ∷ ("sacked", number i.sacked)
        ∷ ("total_retrans", number i.total_retrans)
        ∷ ("conn_closed_total", number closed)
        ∷ []

    -- The round trip time is converted from microseconds to seconds.
    abbrev pub gauges : TcpInfo → ℕ → ℕ → ℕ → ℕ → ℤ → List (String × F)
    gauges i parts waiters active pace limit =
        ("rtt", fl.div_f (number i.rtt) (number 1_000_000))
        ∷ ("upload_parts_active", number parts)
        ∷ ("upload_queued", number waiters)
        ∷ ("conn_active", number active)
        ∷ ("conn_pace", number pace)
        ∷ ("conn_pace_max", fl.of_int64 limit)
        ∷ []

    -- Collect. `registry` is what the Collect of the registry sends: for each of its metrics and each
    -- value of its labels one, where the value of a histogram is its sum. The pointers of the
    -- configuration are never nil here, so that of the early returns only the one on an error of
    -- TcpInfo is left.
    unfoldable pub collect :
        {S : Type 0}
        → Msemaphore S
        → List (Metric F)
        → Sockets
        → (List ℕ → ℕ)
        → Handler S
        → Outcome (List (Metric F))
    collect m registry s mean h =
        let (i, err) = tcp_info s mean h.conn_tracker in
        let (active, closed) = connections h.conn_tracker in
        elim err [
          | some e ↦ returned registry
          | none ↦ do
            sent ← send counter_value (counters i closed)
            limit ← upload_bwlimit_bytes h.conf
            gauged ← send gauge_value (
                gauges i (m.get_count h.parallel_uploads.inner) h.parallel_uploads.waiters active
                  (pacing_rate h.conn_tracker) limit)
            returned (registry ++ (sent ++ gauged))
        ]
