-- ===== src/Upload/Handler/Examples.antt =====
-- The theorems on the handler at a concrete handler and a concrete request.
use deliverator.Base.{ℕ, ◌*◌, ◌+◌, ◌≤◌, ◌<◌, ◌≡◌, ◌≢◌, refl, arith, returned, none}
use deliverator.Semaphore.Laws.{Counter, counter, counter-IsCounting}
use deliverator.ConnTracker.Tracker.{set_pacing_rate}
use deliverator.Base.Int.{pos}
use deliverator.Upload.Samples.{whole, conf}
use deliverator.Upload.Handler.Units.{taken, do_serve_http-units}
use deliverator.Upload.Handler.Returns.{do_serve_http-Returns}
use deliverator.Upload.Handler.{Handler, Served, update_pacing_rate, do_serve_http}
use deliverator.Upload.Handler.Pacing.{update_pacing_rate-share}
use deliverator.Upload.Handler.Samples.{sockets, handler, request, accepted}

-- Three parts are uploaded, with a limit of 80 bits per second.
abbrev three_active : Handler Counter
three_active = record handler {
  parallel_uploads = record { inner = record { count = 3; limit = 10 }; waiters = 0 };
}

update_pacing_rate-share_example :
    (p bytes : ℕ) × (update_pacing_rate counter sockets three_active
      ≡ returned (record three_active {
        conn_tracker = (set_pacing_rate sockets p three_active.conn_tracker).0;
      }))
    × (80 ≤ bytes * 8)
    × (bytes * 8 < 80 + 8)
    × (bytes ≤ p * 3)
    × (p * 3 < bytes + 3)
update_pacing_rate-share_example =
    update_pacing_rate-share counter sockets three_active 80 refl (omega arith) (omega arith)

sized : conf.upload_partsize.value ≢ pos 0
sized e = cc

do_serve_http-Returns_example :
    (s : Served counter whole) × (do_serve_http counter whole request handler ≡ returned s)
do_serve_http-Returns_example =
    do_serve_http-Returns counter counter-IsCounting whole request (λ h. refl) tt handler sized
      (accepted.0, none) accepted.1

abbrev served :
    (s : Served counter whole) × (do_serve_http counter whole request handler ≡ returned s)
served =
    do_serve_http-Returns counter counter-IsCounting whole request (λ h. refl) tt handler sized
      (accepted.0, none) accepted.1

do_serve_http-units_example : taken counter served.0.0 ≡ 0
do_serve_http-units_example =
    do_serve_http-units counter counter-IsCounting whole request (λ h. refl) tt handler served.0
      served.1
