-- ===== src/ConnTracker/Examples.antt =====
-- Tests of the tracker, and its theorems at concrete inputs.
use mathlib.Core.List.Permᴰ.{swap}
use deliverator.Base.{
  ℕ, ◌≤◌, ◌+◌, ◌%◌, ◌^◌, total, ◌≡◌, ◌≢◌, ◌↔◌, refl, arith, true, false, List, [], ◌∷◌, ◌&&◌, none,
  some, All, if◌then◌else◌, ◌==◌,
}
use deliverator.Errors.{plain}
use deliverator.ConnTracker.TcpInfo.{TcpInfo, empty}
use deliverator.ConnTracker.Tracker.{
  conn_tcp_info, ConnTracker, Dialed, connections, new_conn_tracker, Sockets, info, update,
  rate_passed, rate_error, set_conn_pacing_rate, set_each, set_pacing_rate, conn, pace_new,
  add_conn, dial_context, delete, close, mark_closed, tcp_info,
}
use deliverator.ConnTracker.Pacing.{member, accepts, set_pacing_rate_lem}
use deliverator.ConnTracker.Lifecycle.{
  dials as dialing, closes as closing, sets as setting, Reach, here, next, IsTracked,
  Reach-IsTracked,
}
use deliverator.ConnTracker.Order.{Reordered, reorders, operations-Reordered}
use deliverator.ConnTracker.Totals.{Width, IsCounter, bits64, counters-IsCounter, amount}
use deliverator.ConnTracker.Ledger.{Operation, dials, closes, step, run, kept, run-total}
use deliverator.ConnTracker.Monotone.{counter_never_falls}
use deliverator.ConnTracker.InStep.{Works, Reach-InStep}

abbrev fine : Sockets
fine = record {
  syscall_conn = λ c. none;
  control = λ c. none;
  set_rate = λ c pace. none;
  get_info = λ c. info empty;
}

-- Setting the rate of connection 0 fails.
abbrev refusing : Sockets
refusing = record fine { set_rate = λ c pace. if c == 0 then some (plain "refused") else none }

abbrev start : ConnTracker
start = new_conn_tracker (λ c. 0)

fine-Works : Works fine
unfolding rate_error
fine-Works c pace = refl

-- A rate is set, two connections are dialed, the rate changes, and the first is closed.
abbrev busy : ConnTracker
busy =
    let t : ConnTracker = (set_pacing_rate fine 1_000 start).0 in
    let u : ConnTracker = (dial_context fine conn t).0 in
    let v : ConnTracker = (dial_context fine conn u).0 in
    close fine 0 (set_pacing_rate fine 500 v).0

busy-Reach : Reach Works start busy
unfolding set_pacing_rate dial_context set_each add_conn pace_new set_conn_pacing_rate rate_error
    new_conn_tracker
busy-Reach =
    next
      (next
        (next (next (next here (setting fine fine-Works 1_000)) (dialing fine fine-Works conn))
          (dialing fine fine-Works conn))
        (setting fine fine-Works 500))
      (closing fine fine-Works 0 (omega arith))

Reach-IsTracked_example : IsTracked busy
Reach-IsTracked_example = Reach-IsTracked (λ c. 0) busy-Reach

Reach-InStep_example : busy.max_pacing_rate 1 ≡ rate_passed busy.upload_pace
unfolding close mark_closed delete update set_pacing_rate dial_context set_each add_conn pace_new
    set_conn_pacing_rate rate_error new_conn_tracker
Reach-InStep_example = Reach-InStep (λ c. 0) busy busy-Reach (omega arith) 1 refl

set_pacing_rate_lem_example :
    (5_000_000_000 ≡ busy.upload_pace → set_pacing_rate refusing 5_000_000_000 busy ≡ (busy, none))
    × (5_000_000_000 ≢ busy.upload_pace
        → (rates : ℕ → ℕ) × ((set_pacing_rate refusing 5_000_000_000 busy).0
            ≡ record busy { upload_pace = 5_000_000_000; max_pacing_rate = rates })
          × ((j : ℕ)
              → rates j ≡ (
                  if member j busy.active && accepts refusing j 5_000_000_000
                  then rate_passed 5_000_000_000
                  else busy.max_pacing_rate j))
          × (((set_pacing_rate refusing 5_000_000_000 busy).1 ≡ none)
              ↔ All (λ c. accepts refusing c 5_000_000_000 ≡ true) busy.active))
set_pacing_rate_lem_example = set_pacing_rate_lem refusing 5_000_000_000 busy

-- The connection that is left has sent 40 bytes.
abbrev counting : Sockets
counting = record fine { get_info = λ c. info (record empty { bytes_sent = 40 }) }

abbrev bytes_sent : TcpInfo → ℕ
bytes_sent i = i.bytes_sent

-- Two connections, and another order of them.
abbrev pair : ConnTracker
pair = record {
  active = 1 ∷ 0 ∷ [];
  tcp_info_sum_closed = empty;
  closed = 0;
  upload_pace = 10;
  once = λ c. false;
  max_pacing_rate = λ c. 10;
  next = 2;
}

abbrev turned : ConnTracker
turned = record pair { active = 0 ∷ 1 ∷ [] }

operations-Reordered_example :
    ((d : Dialed)
      → Reordered (dial_context counting d pair).0 (dial_context counting d turned).0
        × ((dial_context counting d pair).1 ≡ (dial_context counting d turned).1)
        × ((dial_context counting d pair).2 ≡ (dial_context counting d turned).2))
    × ((c : ℕ) → Reordered (close counting c pair) (close counting c turned))
    × ((pace : ℕ)
        → Reordered (set_pacing_rate counting pace pair).0 (set_pacing_rate counting pace turned).0
          × (((set_pacing_rate counting pace pair).1 ≡ none)
              ↔ ((set_pacing_rate counting pace turned).1 ≡ none)))
    × (connections pair ≡ connections turned)
    × ((mean : List ℕ → ℕ)
        → (((tcp_info counting mean pair).1 ≡ none) ↔ ((tcp_info counting mean turned).1 ≡ none))
          × ((g : TcpInfo → ℕ) (w : Width)
              → IsCounter g w
              → g (tcp_info counting mean pair).0 ≡ g (tcp_info counting mean turned).0))
operations-Reordered_example =
    operations-Reordered counting (reorders (0 ∷ 1 ∷ []) (swap refl refl))

-- Two connections are dialed, and one is closed.
abbrev dialed_and_closed : List Operation
dialed_and_closed = dials fine conn ∷ dials fine conn ∷ closes counting 0 ∷ []

run-total_example :
    bytes_sent (tcp_info counting (λ rtts. 0) (run dialed_and_closed start)).0
    ≡ (kept bytes_sent dialed_and_closed start
        + total (amount counting bytes_sent) (run dialed_and_closed start).active)
      % 2 ^ 64
run-total_example =
    run-total bytes_sent bits64 counters-IsCounter.3 counting (λ rtts. 0) dialed_and_closed (λ c. 0)

-- These are 40 bytes each.
both_counted :
    (kept bytes_sent dialed_and_closed start ≡ 40)
    × (total (amount counting bytes_sent) (run dialed_and_closed start).active ≡ 40)
unfolding dial_context add_conn pace_new close mark_closed new_conn_tracker delete update
    conn_tcp_info
both_counted = (refl, refl)

counter_never_falls_example :
    bytes_sent (tcp_info counting (λ rtts. 0) pair).0
    ≤ bytes_sent (tcp_info counting (λ rtts. 0) (step (closes counting 1) pair)).0
unfolding close mark_closed delete update conn_tcp_info
counter_never_falls_example =
    counter_never_falls bytes_sent counting counting bits64 counters-IsCounter.3 (λ rtts. 0)
      (λ rtts. 0) (closes counting 1) pair ((omega arith, tt), omega arith) (omega arith)
