-- ===== src/Upload/Concurrent/Examples.antt =====
-- Requests to a handler with a limit of 10 bytes per second, and the theorems at these.
use deliverator.Base.{
  ℕ, ◌+◌, ◌*◌, ◌≤◌, ◌<◌, ◌≡◌, ◌⊎◌, refl, arith, true, some, [], ◌∷◌, All, total, returned,
}
use deliverator.Base.Int.{pos, wrap64}
use deliverator.Util.{div_ceil}
use deliverator.Conf.{upload_bwlimit_bytes}
use deliverator.Semaphore.{Semaphore, release}
use deliverator.Semaphore.Laws.{Counter, counter, counter-IsCounting}
use deliverator.Semaphore.System.{blocked, start}
use deliverator.ConnTracker.Tracker.{rate_passed, set_pacing_rate, set_each}
use deliverator.ConnTracker.Pacing.{member}
use deliverator.Upload.Samples.{conf}
use deliverator.Conf.{Conf}
use deliverator.Upload.Handler.{
  new_s3nd_handler, new_handler, Handler, target_pace, update_pacing_rate, finish,
}
use deliverator.Upload.Handler.Samples.{sockets}
use deliverator.Upload.Concurrent.{
  reads, crashed, acquiring, uploading, rebalancing, setting, ended, releases, System, Step, Reach,
  here, next, arrives, moves, Free,
}
use deliverator.Upload.Concurrent.Units.{units, IsAccounted}
use deliverator.Upload.Concurrent.Start.{IsFair, made-accounts, uploading-releases, made-IsFair}
use deliverator.Upload.Concurrent.Calm.{Calm, IsSettled, exact_share}
use deliverator.Upload.Concurrent.Races.{overtaken_update, overtaken_dial}
use deliverator.Upload.Concurrent.Starves.{overtaken, Overtakes, starves}
use deliverator.Upload.Concurrent.Crash.{overtaken_count}
use deliverator.Upload.Concurrent.Lock.{lent, Promise}
use deliverator.Upload.Concurrent.Refines.{view, made-Promise}
use deliverator.Upload.Concurrent.Runs.{Run}
use deliverator.Upload.Concurrent.Live.{CanEnd, made-CanEnd}
use deliverator.Upload.Concurrent.Samples.{no_rates, started, made, bytes, at_work, at_work-Reach}

-- The rates of two, three and five parts.
half : target_pace counter (pos 10) 2 ≡ returned 5
unfolding target_pace div_ceil wrap64
half = refl

third : target_pace counter (pos 10) 3 ≡ returned 4
unfolding target_pace div_ceil wrap64
third = refl

fifth : target_pace counter (pos 10) 5 ≡ returned 2
unfolding target_pace div_ceil wrap64
fifth = refl

made-accounts_example : IsAccounted counter counter-IsCounting 10 at_work
made-accounts_example =
    made-accounts counter sockets conf no_rates made counter-IsCounting at_work-Reach

uploading-releases_example :
    (2 ≤ 10)
    × ((sem : Semaphore Counter) × (release counter 2 at_work.handler.parallel_uploads ≡ some sem))
uploading-releases_example =
    uploading-releases counter sockets conf no_rates made counter-IsCounting at_work [] [] 2
      at_work-Reach refl

made-IsFair_example :
    IsFair 10 10 5 × ((j : ℕ) → (0 ≡ no_rates j) ⊎ ((p : ℕ) × IsFair 10 10 p × (0 ≡ rate_passed p)))
made-IsFair_example =
    made-IsFair counter sockets conf no_rates made counter-IsCounting 10 (omega arith) (omega arith)
      bytes at_work-Reach

exact_share_example : (10 ≤ 5 * 2) × (5 * 2 < 10 + 2)
exact_share_example =
    exact_share counter sockets conf no_rates made counter-IsCounting 10 (omega arith) (omega arith)
      bytes at_work-Reach (tt, tt)

overtaken_update_example :
    (s : System counter) × Reach counter Free started s
    × (s.threads ≡ uploading 3 ∷ uploading 2 ∷ [])
    × All IsSettled s.threads
    × (total units s.threads ≡ 5)
    × (s.handler.conn_tracker.upload_pace ≡ 5)
overtaken_update_example =
    overtaken_update counter counter-IsCounting sockets conf no_rates made 10 (omega arith)
      (omega arith) bytes 2 3 5 2 (omega arith) (omega arith) half fifth (λ e. omega (arith, e))
      (λ e. omega (arith, e))

overtaken_dial_example :
    (s t : System counter) × Reach counter Free started s
    × (s.threads ≡ uploading 2 ∷ setting 0 10 ∷ [])
    × (s.handler.conn_tracker.upload_pace ≡ 5)
    × (s.handler.conn_tracker.max_pacing_rate 0 ≡ rate_passed 5)
    × Run counter (λ p. Unit) s 1 t
    × All IsSettled t.threads
    × (t.handler.conn_tracker.upload_pace ≡ 5)
    × (member 0 t.handler.conn_tracker.active ≡ true)
    × (t.handler.conn_tracker.max_pacing_rate 0 ≡ rate_passed 10)
overtaken_dial_example =
    overtaken_dial counter counter-IsCounting sockets conf no_rates made 10 (omega arith)
      (omega arith) bytes 2 5 (omega arith) (omega arith) half (λ e. omega (arith, e))

-- A request has just come.
abbrev queued : System counter
queued = record { handler = started; threads = acquiring (start 7) ∷ [] }

made-CanEnd_example : CanEnd counter queued
made-CanEnd_example =
    made-CanEnd counter counter-IsCounting sockets conf no_rates made (next here (arrives 7))
      (omega arith, tt)

finish_at_work : finish counter 2 sockets at_work.handler ≡ returned started
unfolding finish update_pacing_rate upload_bwlimit_bytes div_ceil wrap64 target_pace set_pacing_rate
    set_each
finish_at_work = refl

overtaken_count_example :
    (s t : System counter) × Reach counter Free started s
    × (s.threads ≡ uploading 3 ∷ uploading 2 ∷ [])
    × Run counter (λ p. Unit) s 4 t
    × (t.threads ≡ rebalancing reads ∷ rebalancing crashed ∷ [])
overtaken_count_example =
    overtaken_count counter counter-IsCounting sockets conf no_rates 10 2 3 made bytes (omega arith)
      (omega arith) (omega arith) (omega arith)

-- The upload at work ends.
abbrev released_two : System counter
released_two = record {
  handler = record at_work.handler {
    parallel_uploads = record { inner = record { count = 0; limit = 10 }; waiters = 0 };
  };
  threads = rebalancing reads ∷ [];
}

finishing : Step counter Calm at_work released_two
finishing = moves [] [] refl tt (releases refl)

made-Promise_example :
    (lent (view counter at_work) ≡ 2)
    × Promise 10 (view counter at_work) (view counter released_two)
made-Promise_example =
    made-Promise counter counter-IsCounting sockets conf no_rates made at_work-Reach finishing

-- Without a bandwidth limit, three requests for 4 parts overtake one for 8, of 10.
abbrev free_conf : Conf
free_conf = record conf { upload_bwlimit = record { value = pos 0; text = "0" } }

abbrev free_handler : Handler Counter
free_handler =
    new_handler counter free_conf no_rates
      (record { inner = record { count = 0; limit = 10 }; waiters = 0 })

made_free : new_s3nd_handler counter sockets free_conf no_rates ≡ returned free_handler
unfolding new_s3nd_handler update_pacing_rate upload_bwlimit_bytes div_ceil wrap64
made_free = refl

starves_example :
    ((a : Counter) × (counter.enter free_handler.parallel_uploads.inner 8 ≡ some a))
    × ((s t : System counter) × Reach counter Free free_handler s
        × (s.threads ≡ uploading 4 ∷ acquiring (blocked 8) ∷ ended ∷ [])
        × Overtakes counter 4 s 3 t
        × (t.threads ≡ uploading 4 ∷ overtaken 3 8))
starves_example =
    starves counter counter-IsCounting sockets free_conf no_rates 4 8 3 made_free
      (unfold upload_bwlimit_bytes div_ceil wrap64 in refl) (omega arith) (omega arith)
      (omega arith)
