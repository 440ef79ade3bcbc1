-- ===== src/Upload/Logs/Examples.antt =====
-- The log record at a request of two parts, and the record and the rate at the edges.
use deliverator.Base.{◌^◌, ◌≡◌, refl, arith, none}
use deliverator.Base.Int.{pos}
use deliverator.Semaphore.Laws.{Counter, counter, counter-IsCounting}
use deliverator.Upload.Samples.{whole, conf, quantity}
use deliverator.Upload.Handler.{Handler}
use deliverator.Upload.Handler.Samples.{sockets, handler}
use deliverator.Upload.Concurrent.Samples.{no_rates, made, at_work, at_work-Reach}
use deliverator.Upload.Logs.{attribute, mbits, log_uploads}
use deliverator.Upload.Logs.Truthful.{WithinLimit, Tells, log_uploads-truthful}

log_uploads-truthful_example :
    Tells whole 80 2 0 5 (log_uploads whole counter at_work.handler) × WithinLimit 80 5
log_uploads-truthful_example =
    log_uploads-truthful whole counter counter-IsCounting sockets conf no_rates 80 made refl
      (omega arith) at_work-Reach

abbrev without_limit : Handler Counter
without_limit = record handler { conf = record conf { upload_bwlimit = quantity (pos 0) } }

unlimited_record :
    attribute "s3_tcp_conn_pace_bytes" (log_uploads whole counter without_limit).attrs ≡ none
unfolding log_uploads
unlimited_record = refl

-- At 2 ^ 61 bytes per second the number of bits wraps to 0.
mbits_wraps : mbits whole (2 ^ 61) ≡ pos 0
unfolding mbits
mbits_wraps = refl
