-- ===== src/Upload/Concurrent/Samples.antt =====
-- Test data: requests to a handler with a limit of 10 bytes per second.
use deliverator.Base.{ℕ, ◌≡◌, refl, arith, false, [], ◌∷◌, returned}
use deliverator.Base.Int.{pos, wrap64}
use deliverator.Util.{div_ceil}
use deliverator.Conf.{upload_bwlimit_bytes}
use deliverator.Semaphore.Laws.{Counter, counter}
use deliverator.Semaphore.System.{try_ok}
use deliverator.ConnTracker.TcpInfo.{empty}
use deliverator.ConnTracker.Tracker.{new_conn_tracker, set_pacing_rate, set_each}
use deliverator.Upload.Samples.{conf}
use deliverator.Upload.Handler.{Handler, new_s3nd_handler, target_pace, update_pacing_rate}
use deliverator.Upload.Handler.Samples.{sockets, handler}
use deliverator.Upload.Concurrent.{
  compares, pacing, uploading, some_active, divide, differs, store, apply, acquires, begins, paces,
  starts, System, Reach, here, next, arrives, moves,
}
use deliverator.Upload.Concurrent.Calm.{Calm}

abbrev pub no_rates : ℕ → ℕ
no_rates c = 0

-- The handler of NewS3ndHandler, where the whole limit is recorded.
abbrev pub started : Handler Counter
started = record handler {
  conn_tracker = record {
    active = [];
    tcp_info_sum_closed = empty;
    closed = 0;
    upload_pace = 10;
    once = λ c. false;
    max_pacing_rate = no_rates;
    next = 0;
  };
}

pub made : new_s3nd_handler counter sockets conf no_rates ≡ returned started
unfolding new_s3nd_handler update_pacing_rate upload_bwlimit_bytes div_ceil wrap64 target_pace
    set_pacing_rate set_each new_conn_tracker
made = refl

pub bytes : upload_bwlimit_bytes conf ≡ returned (pos 10)
unfolding upload_bwlimit_bytes div_ceil wrap64
bytes = refl

pub quotient : div_ceil (pos 10) (pos 2) ≡ returned (pos 5)
unfolding div_ceil wrap64
quotient = refl

-- A request of two parts is being uploaded.
abbrev pub at_work : System counter
at_work = record {
  handler = record started {
    parallel_uploads = record { inner = record { count = 2; limit = 10 }; waiters = 0 };
    conn_tracker = record started.conn_tracker { upload_pace = 5 };
  };
  threads = uploading 2 ∷ [];
}

abbrev pub with_two : Handler Counter
with_two = record started {
  parallel_uploads = record { inner = record { count = 2; limit = 10 }; waiters = 0 };
}

pub two-Reach :
    Reach counter Calm started (record { handler = with_two; threads = pacing 2 (compares 5) ∷ [] })
two-Reach =
    next
      (next
        (next
          (next (next here (arrives 2)) (
            moves [] [] refl tt (acquires tt (try_ok {i = record { count = 2; limit = 10 }} refl))))
          (moves [] [] refl tt begins))
        (moves [] [] refl tt (paces (some_active bytes (λ z. cc) (λ z. omega (arith, z))))))
      (moves [] [] refl tt (paces (divide bytes quotient)))

pub at_work-Reach : Reach counter Calm started at_work
unfolding set_each
at_work-Reach =
    next
      (next
        (next (next two-Reach (moves [] [] refl tt (paces (differs (λ e. omega (arith, e))))))
          (moves [] [] refl tt (paces store)))
        (moves [] [] refl tt (paces (apply sockets))))
      (moves [] [] refl tt starts)
