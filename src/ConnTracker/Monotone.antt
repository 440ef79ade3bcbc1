-- ===== src/ConnTracker/Monotone.antt =====
-- The counters of TcpInfo of conntracker/conntracker.go never fall from one operation to the next.
use deliverator.Base.{
  ℕ, ◌+◌, ◌%◌, ◌≤◌, ◌<◌, ◌≡◌, ap, ◌∙◌, arith, List, [], ◌∷◌, ltb, ◌==◌, ==_iff, All, total,
  Bool-cases, inl, inr,
}
use deliverator.ConnTracker.TcpInfo.{TcpInfo}
use deliverator.ConnTracker.Tracker.{
  ConnTracker, Sockets, Dialed, dial_error, untrackable, conn, dial_context, add_conn, pace_new,
  delete, mark_closed, close, set_pacing_rate, tcp_info,
}
use deliverator.ConnTracker.Totals.{
  Width, bits32, bits64, modulus, IsCounter, amount, mod_cong, tcp_info-total,
}
use deliverator.ConnTracker.Ledger.{Operation, dials, closes, sets, step, at_close, step-sum}

total-le : (f h : ℕ → ℕ) (cs : List ℕ) → All (λ c. f c ≤ h c) cs → total f cs ≤ total h cs
total-le f h [] a = omega arith
total-le f h (c ∷ cs) a = omega (arith, a.0, total-le f h cs a.1)

total-delete-le : (f : ℕ → ℕ) (c : ℕ) (cs : List ℕ) → total f cs ≤ f c + total f (delete c cs)
unfolding delete
total-delete-le f c [] = omega arith
total-delete-le f c (d ∷ ds) = elim (Bool-cases (d == c)) [
  | inl e ↦ rw (e, delete) (omega (arith, ap f ((==_iff d c).0 e)))
  | inr e ↦ rw (e, delete) (omega (arith, total-delete-le f c ds))
]

small-mod : (w : Width) (a : ℕ) → a < modulus w → a % modulus w ≡ a
small-mod bits32 a h = omega arith
small-mod bits64 a h = omega arith

mod-le : (w : Width) (a : ℕ) → a % modulus w ≤ a
mod-le bits32 a = omega arith
mod-le bits64 a = omega arith

module _ (g : TcpInfo → ℕ) (before after : Sockets) where
  -- The counter falls on no connection that is still active after the operation, and a connection that
  -- is closed has at its Close at least what it had before.
  abbrev pub Grows : Operation → ConnTracker → Type 0
  Grows o t = All (λ c. amount before g c ≤ amount after g c) (step o t).active × (elim o [
    | dials s d ↦ Unit
    | closes s c ↦ amount before g c ≤ amount s g c
    | sets s pace ↦ Unit
  ])

  -- What the sums are for active connections cs after an operation that keeps n.
  abbrev IsKept : ConnTracker → ℕ → List ℕ → Type 0
  IsKept t n cs =
      All (λ c. amount before g c ≤ amount after g c) cs
      → total (amount before g) t.active ≤ n + total (amount after g) cs

  same-IsKept : (t : ConnTracker) → IsKept t 0 t.active
  same-IsKept t h = omega (arith, total-le (amount before g) (amount after g) t.active h)

  dial-IsKept :
      (s : Sockets) (d : Dialed) (t : ConnTracker) → IsKept t 0 (dial_context s d t).0.active
  unfolding dial_context add_conn pace_new
  dial-IsKept s (dial_error e) t = same-IsKept t
  dial-IsKept s untrackable t = same-IsKept t
  dial-IsKept s conn t = elim (Bool-cases (ltb 0 t.upload_pace)) [
    | inl e ↦ rw (e, dial_context) (λ h. omega (arith, same-IsKept t h.1))
    | inr e ↦ rw (e, dial_context) (λ h. omega (arith, same-IsKept t h.1))
  ]

  set-IsKept :
      (s : Sockets) (pace : ℕ) (t : ConnTracker) → IsKept t 0 (set_pacing_rate s pace t).0.active
  unfolding set_pacing_rate
  set-IsKept s pace t = elim (Bool-cases (pace == t.upload_pace)) [
    | inl e ↦ rw (e, set_pacing_rate) (same-IsKept t)
    | inr e ↦ rw (e, set_pacing_rate) (same-IsKept t)
  ]

  close-IsKept :
      (s : Sockets) (c : ℕ) (t : ConnTracker)
      → amount before g c ≤ amount s g c
      → IsKept t (at_close g (closes s c) t) (close s c t).active
  unfolding close mark_closed
  close-IsKept s c t grown = elim (Bool-cases (t.once c)) [
    | inl e ↦ rw (e, close) (same-IsKept t)
    | inr e ↦
        rw (e, close)
          (λ h. omega (
            arith,
            grown,
            total-delete-le (amount before g) c t.active,
            total-le (amount before g) (amount after g) (delete c t.active) h,
          ))
  ]

  active-Grows :
      (o : Operation) (t : ConnTracker)
      → Grows o t
      → total (amount before g) t.active ≤ at_close g o t + total (amount after g) (step o t).active
  active-Grows (dials s d) t h = dial-IsKept s d t h.0
  active-Grows (closes s c) t h = close-IsKept s c t h.1 h.0
  active-Grows (sets s pace) t h = set-IsKept s pace t h.0

  -- From before an operation to after it, no counter of TcpInfo falls, if the kernel's falls on no
  -- connection that stays active, a connection that is closed answers at its Close with at least
  -- what it had before, and what is summed up is below 2 to the width of the counter.
  pub counter_never_falls :
      (w : Width)
      → IsCounter g w
      → (mean mean' : List ℕ → ℕ) (o : Operation) (t : ConnTracker) → Grows o t
      → g t.tcp_info_sum_closed + at_close g o t + total (amount after g) (step o t).active
        < modulus w
      → g (tcp_info before mean t).0 ≤ g (tcp_info after mean' (step o t)).0
  counter_never_falls w k mean mean' o t grown fits =
      let closed : ℕ = g t.tcp_info_sum_closed in
      let now : ℕ = total (amount after g) (step o t).active in
      let old = tcp_info-total before g w k mean t in
      let new =
        tcp_info-total after g w k mean' (step o t)
        ∙ mod_cong w _ _ now (step-sum g w k o t)
        ∙ small-mod w (closed + at_close g o t + now) fits in
      omega (
        arith,
        old,
        new,
        mod-le w (closed + total (amount before g) t.active),
        active-Grows o t grown,
      )
