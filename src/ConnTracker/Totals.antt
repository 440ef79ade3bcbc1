-- ===== src/ConnTracker/Totals.antt =====
-- TcpInfo of conntracker/conntracker.go: each counter is summed over all connections that there
-- have been, and closing one takes nothing away.
use deliverator.Base.{
  ℕ, ◌+◌, ◌%◌, ◌^◌, ◌≡◌, ◌∙◌, sym, ap, refl, arith, true, false, List, [], ◌∷◌, ◌==◌, ==_iff, total,
  Bool-cases, inl, inr,
}
use deliverator.ConnTracker.TcpInfo.{TcpInfo, empty, add_tcp_info}
use deliverator.ConnTracker.Tracker.{
  ConnTracker, Sockets, Answer, info, failed, delete, conn_tcp_info, sum_each, tcp_info,
  mark_closed, close,
}
use deliverator.ConnTracker.Pacing.{member}

-- The widths of the counters.
pub data Width : Type 0 where
  bits32 bits64 : Width

abbrev pub modulus : Width → ℕ
modulus bits32 = 2 ^ 32
modulus bits64 = 2 ^ 64

-- A counter of a TCPInfo: addTcpInfo adds it up, and it is not the round trip time.
pub record IsCounter (g : TcpInfo → ℕ) (w : Width) : Type 0 where
  pub zero : g empty ≡ 0
  pub adds : (a b : TcpInfo) → g (add_tcp_info a b) ≡ (g a + g b) % modulus w
  pub not_rtt : (a : TcpInfo) (r : ℕ) → g (record a { rtt = r }) ≡ g a

-- The counters that addTcpInfo adds up.
pub counters-IsCounter :
    IsCounter (λ i. i.bytes_acked) bits64
    × IsCounter (λ i. i.bytes_received) bits64
    × IsCounter (λ i. i.bytes_retrans) bits64
    × IsCounter (λ i. i.bytes_sent) bits64
    × IsCounter (λ i. i.dsack_dups) bits32
    × IsCounter (λ i. i.fackets) bits32
    × IsCounter (λ i. i.lost) bits32
    × IsCounter (λ i. i.rcv_ooopack) bits32
    × IsCounter (λ i. i.reord_seen) bits32
    × IsCounter (λ i. i.retrans) bits32
    × IsCounter (λ i. i.sacked) bits32
    × IsCounter (λ i. i.total_retrans) bits32
unfolding add_tcp_info
counters-IsCounter = (
  record { zero = refl; adds = λ a b. refl; not_rtt = λ a r. refl },
  record { zero = refl; adds = λ a b. refl; not_rtt = λ a r. refl },
  record { zero = refl; adds = λ a b. refl; not_rtt = λ a r. refl },
  record { zero = refl; adds = λ a b. refl; not_rtt = λ a r. refl },
  record { zero = refl; adds = λ a b. refl; not_rtt = λ a r. refl },
  record { zero = refl; adds = λ a b. refl; not_rtt = λ a r. refl },
  record { zero = refl; adds = λ a b. refl; not_rtt = λ a r. refl },
  record { zero = refl; adds = λ a b. refl; not_rtt = λ a r. refl },
  record { zero = refl; adds = λ a b. refl; not_rtt = λ a r. refl },
  record { zero = refl; adds = λ a b. refl; not_rtt = λ a r. refl },
  record { zero = refl; adds = λ a b. refl; not_rtt = λ a r. refl },
  record { zero = refl; adds = λ a b. refl; not_rtt = λ a r. refl },
)

pub mod_mod : (w : Width) (a : ℕ) → a % modulus w % modulus w ≡ a % modulus w
mod_mod bits32 a = omega arith
mod_mod bits64 a = omega arith

pub mod_cong :
    (w : Width) (a b c : ℕ)
    → a % modulus w ≡ b % modulus w
    → (a + c) % modulus w ≡ (b + c) % modulus w
mod_cong bits32 a b c h = omega arith
mod_cong bits64 a b c h = omega arith

mod_step :
    (w : Width) (a b c : ℕ) → ((a + b) % modulus w + c) % modulus w ≡ (a + (b + c)) % modulus w
mod_step bits32 a b c = omega arith
mod_step bits64 a b c = omega arith

mod_add :
    (w : Width) (a b c : ℕ)
    → b % modulus w ≡ c % modulus w
    → (a + b) % modulus w ≡ (a + c) % modulus w
mod_add bits32 a b c h = omega arith
mod_add bits64 a b c h = omega arith

module _ (s : Sockets) (g : TcpInfo → ℕ) where
  -- What a connection adds to the counter: nothing if it does not answer.
  abbrev pub amount : ℕ → ℕ
  amount c = elim (conn_tcp_info s c) [ failed e ↦ 0 | info i ↦ g i ]

  total-delete :
      (c : ℕ) (cs : List ℕ)
      → member c cs ≡ true
      → amount c + total amount (delete c cs) ≡ total amount cs
  unfolding delete
  total-delete c [] h = cc
  total-delete c (d ∷ ds) h = elim (Bool-cases (d == c)) [
    | inl e ↦ rw e (ap (λ x. amount x + total amount ds) (sym ((==_iff d c).0 e)))
    | inr e ↦ rw e (omega (arith, total-delete c ds (rw e at h)))
  ]

  module _ (w : Width) (k : IsCounter g w) where
    added-answer :
        (a : Answer) (acc : TcpInfo) (x : ℕ)
        → (g (elim a [ failed e ↦ acc | info i ↦ add_tcp_info acc i ]) + x) % modulus w
          ≡ (g acc + ((elim a [ failed e ↦ 0 | info i ↦ g i ]) + x)) % modulus w
    added-answer (failed e) acc x = ap (λ n. (g acc + n) % modulus w) (omega arith)
    added-answer (info i) acc x =
        ap (λ n. (n + x) % modulus w) (k.adds acc i) ∙ mod_step w (g acc) (g i) x

    sum_each-total :
        (acc : TcpInfo) (cs : List ℕ)
        → g (sum_each s acc cs).0 % modulus w ≡ (g acc + total amount cs) % modulus w
    unfolding sum_each
    sum_each-total acc [] = ap (λ n. n % modulus w) (omega arith)
    sum_each-total acc (c ∷ cs) =
        sum_each-total (elim (conn_tcp_info s c) [ failed e ↦ acc | info i ↦ add_tcp_info acc i ])
          cs
        ∙ added-answer (conn_tcp_info s c) acc (total amount cs)

    -- A counter of TcpInfo is the sum, modulo the width of the counter, of what the closed
    -- connections had and of what the active ones have, of those that answer. The order of the
    -- iteration over the map does not matter for it.
    pub tcp_info-total :
        (mean : List ℕ → ℕ) (t : ConnTracker)
        → g (tcp_info s mean t).0 ≡ (g t.tcp_info_sum_closed + total amount t.active) % modulus w
    unfolding tcp_info
    tcp_info-total mean t =
        let closed = t.tcp_info_sum_closed in
        k.not_rtt _ _
        ∙ k.adds closed (sum_each s empty t.active).0
        ∙ mod_add w (g closed) (g (sum_each s empty t.active).0) (total amount t.active) (
            sum_each-total empty t.active
            ∙ ap (λ n. (n + total amount t.active) % modulus w) k.zero
            ∙ ap (λ n. n % modulus w) (omega arith))

    -- Closing an active connection for the first time leaves each counter of TcpInfo as it was, if
    -- the sockets answer the same: what the connection had is kept, and is not counted twice.
    pub close-total :
        (mean mean' : List ℕ → ℕ) (c : ℕ) (t : ConnTracker)
        → t.once c ≡ false
        → member c t.active ≡ true
        → g (tcp_info s mean' (close s c t)).0 ≡ g (tcp_info s mean t).0
    unfolding close mark_closed
    close-total mean mean' c t fresh m =
        tcp_info-total mean' (close s c t)
        ∙ rw fresh (
            added-answer (conn_tcp_info s c) t.tcp_info_sum_closed
              (total amount (delete c t.active))
            ∙ ap (λ n. (g t.tcp_info_sum_closed + n) % modulus w) (total-delete c t.active m))
        ∙ sym (tcp_info-total mean t)
