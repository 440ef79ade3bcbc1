-- ===== src/Collector/Examples.antt =====
-- The collector at a handler with an open connection.
use deliverator.Base.{◌≡◌, refl, String, List, [], ◌∷◌, returned}
use deliverator.Base.Int.{ℤ, pos}
use deliverator.Semaphore.Laws.{Counter, counter, counter-IsCounting}
use deliverator.ConnTracker.Tracker.{conn_tcp_info, sum_each, tcp_info, new_conn_tracker}
use deliverator.Upload.Samples.{whole, conf}
use deliverator.Upload.Concurrent.Samples.{no_rates, made, bytes, at_work, at_work-Reach}
use deliverator.Collector.Readings.{Reads, collect-readings}
use deliverator.Upload.Handler.{Handler}
use deliverator.Upload.Handler.Samples.{sockets, handler}
use deliverator.Collector.{counter_value, Metric, collect}
use deliverator.Collector.Complete.{occurrences, described, sent, collect_complete}

-- Connection 0 is open.
abbrev connected : Handler Counter
connected = record handler { conn_tracker = record handler.conn_tracker { active = 0 ∷ [] } }

-- One request was valid.
abbrev valid : Metric ℤ
valid = record {
  desc = record {
    name = "s3nd_upload_valid_requests_total";
    help = "number of valid upload requests";
  };
  kind = counter_value;
  value = pos 1;
}

collect_complete_example :
    (ms : List (Metric ℤ)) × (collect whole counter (valid ∷ []) sockets (λ rtts. 0) connected
      ≡ returned (valid ∷ ms))
    × ((name : String) → occurrences name (sent ms) ≡ occurrences name described)
collect_complete_example =
    collect_complete counter whole sockets (λ rtts. 0) (valid ∷ []) connected
      (unfold tcp_info sum_each conn_tcp_info new_conn_tracker in refl)

-- Two parts are being uploaded, with no connection yet.
collect-readings_example :
    (ms : List (Metric ℤ)) × (collect whole counter (valid ∷ []) sockets (λ rtts. 0) at_work.handler
      ≡ returned ms)
    × Reads whole 2 0 0 5 (pos 10) ms
collect-readings_example =
    collect-readings counter whole sockets (λ rtts. 0) (valid ∷ []) (refl, tt) counter-IsCounting
      sockets conf no_rates (pos 10) made bytes at_work-Reach (unfold tcp_info sum_each in refl)
