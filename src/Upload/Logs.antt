-- ===== src/Upload/Logs.antt =====
-- The log records of upload/handler.go that tell the state of the handler: logUploads, and
-- PacingRateMbits of conntracker/conntracker.go.
pub mod Truthful
mod Examples
use deliverator.Base.{
  ℕ, ◌*◌, ◌%◌, ◌^◌, String, Option, none, some, List, [], ◌∷◌, str_eq, if◌then◌else◌,
}
use deliverator.Base.Int.{pos, eq_ℤ}
use deliverator.Semaphore.{Msemaphore}
use deliverator.ConnTracker.Tracker.{ConnTracker, pacing_rate}
use deliverator.Upload.Task.{Float64}
use deliverator.Upload.Handler.{Handler}

-- The value of an attribute: an integer, none of which is negative here, or a float64.
pub data Value (F : Type 0) : Type 0 where
  number : ℕ → Value F
  real : F → Value F

-- A record of slog at the level Info: its message, and its attributes in order.
pub record LogRecord (F : Type 0) : Type 0 where
  pub msg : String
  pub attrs : List (String × Value F)

-- The value of the first attribute of a name.
abbrev pub attribute : {F : Type 0} → String → List (String × Value F) → Option (Value F)
attribute key [] = none
attribute key ((k, v) ∷ rest) = if str_eq k key then some v else attribute key rest

module _ {F : Type 0} (fl : Float64 F) where
  -- A rate in bytes per second as one in units of 2 ^ 20 bits per second. The product is a uint64.
  unfoldable pub mbits : ℕ → F
  mbits pace = fl.div_f (fl.of_int64 (pos (pace * 8 % 2 ^ 64))) (fl.of_int64 (pos 1_048_576))

  -- PacingRateMbits.
  unfoldable pub pacing_rate_mbits : ConnTracker → F
  unfolding mbits
  pacing_rate_mbits t = mbits (pacing_rate t)

  module _ {S : Type 0} (m : Msemaphore S) where
    abbrev pub upload_attrs : Handler S → List (String × Value F)
    upload_attrs h =
        ("upload_parts_active", number (m.get_count h.parallel_uploads.inner))
        ∷ ("upload_queued", number h.parallel_uploads.waiters)
        ∷ []

    abbrev pub pace_attrs : Handler S → List (String × Value F)
    pace_attrs h =
        ("s3_tcp_conn_pace_bytes", number (pacing_rate h.conn_tracker))
        ∷ ("s3_tcp_conn_pace_mbits", real (pacing_rate_mbits h.conn_tracker))
        ∷ upload_attrs h

    -- logUploads, which updatePacingRate always calls at its end.
    unfoldable pub log_uploads : Handler S → LogRecord F
    log_uploads h = record {
      msg = "active uploads";
      attrs = if eq_ℤ h.conf.upload_bwlimit.value (pos 0) then upload_attrs h else pace_attrs h;
    }
