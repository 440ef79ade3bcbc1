-- ===== src/ConnTracker/Ledger.antt =====
-- TcpInfo of conntracker/conntracker.go after any operations: what it reports of the connections
-- that there have been.
use deliverator.Base.{
  ℕ, ltb, ◌==◌, ◌+◌, ◌%◌, ◌≡◌, ap, ◌∙◌, arith, List, [], ◌∷◌, if◌then◌else◌, total, Bool-cases, inl,
  inr,
}
use deliverator.ConnTracker.TcpInfo.{TcpInfo, add_tcp_info}
use deliverator.ConnTracker.Tracker.{
  ConnTracker, new_conn_tracker, Sockets, Answer, info, failed, Dialed, dial_error, untrackable,
  conn, conn_tcp_info, dial_context, add_conn, pace_new, mark_closed, close, set_pacing_rate,
  tcp_info,
}
use deliverator.ConnTracker.Totals.{
  Width, modulus, mod_mod, mod_cong, IsCounter, amount, tcp_info-total,
}

-- An operation, with the system calls during it.
pub data Operation : Type 0 where
  dials : Sockets → Dialed → Operation
  closes : Sockets → ℕ → Operation
  sets : Sockets → ℕ → Operation

abbrev pub step : Operation → ConnTracker → ConnTracker
step (dials s d) t = (dial_context s d t).0
step (closes s c) t = close s c t
step (sets s pace) t = (set_pacing_rate s pace t).0

-- One operation after another.
abbrev pub run : List Operation → ConnTracker → ConnTracker
run [] t = t
run (o ∷ os) t = run os (step o t)

module _ (g : TcpInfo → ℕ) where
  -- What a counter had when its connection was closed: nothing for a second Close, nor for a
  -- connection that does not answer.
  abbrev pub at_close : Operation → ConnTracker → ℕ
  at_close (dials s d) t = 0
  at_close (closes s c) t = if t.once c then 0 else amount s g c
  at_close (sets s pace) t = 0

  -- The sum of that over all operations.
  abbrev pub kept : List Operation → ConnTracker → ℕ
  kept [] t = 0
  kept (o ∷ os) t = at_close o t + kept os (step o t)

  module _ (w : Width) (k : IsCounter g w) where
    answered :
        (a : Answer) (acc : TcpInfo)
        → g (elim a [ failed e ↦ acc | info i ↦ add_tcp_info acc i ]) % modulus w
          ≡ (g acc + (elim a [ failed e ↦ 0 | info i ↦ g i ])) % modulus w
    answered (failed e) acc = ap (λ n. n % modulus w) (omega arith)
    answered (info i) acc = ap (λ n. n % modulus w) (k.adds acc i) ∙ mod_mod w (g acc + g i)

    pub step-sum :
        (o : Operation) (t : ConnTracker)
        → g (step o t).tcp_info_sum_closed % modulus w
          ≡ (g t.tcp_info_sum_closed + at_close o t) % modulus w
    unfolding dial_context add_conn pace_new close mark_closed set_pacing_rate
    step-sum (dials s (dial_error e)) t = ap (λ n. n % modulus w) (omega arith)
    step-sum (dials s untrackable) t = ap (λ n. n % modulus w) (omega arith)
    step-sum (dials s conn) t = elim (Bool-cases (ltb 0 t.upload_pace)) [
      | inl e ↦ rw (e, step) (ap (λ n. n % modulus w) (omega arith))
      | inr e ↦ rw (e, step) (ap (λ n. n % modulus w) (omega arith))
    ]
    step-sum (closes s c) t = elim (Bool-cases (t.once c)) [
      | inl e ↦ rw e (ap (λ n. n % modulus w) (omega arith))
      | inr e ↦ rw e (answered (conn_tcp_info s c) t.tcp_info_sum_closed)
    ]
    step-sum (sets s pace) t = elim (Bool-cases (pace == t.upload_pace)) [
      | inl e ↦ rw (e, step) (ap (λ n. n % modulus w) (omega arith))
      | inr e ↦ rw (e, step) (ap (λ n. n % modulus w) (omega arith))
    ]

    run-sum :
        (os : List Operation) (t : ConnTracker)
        → g (run os t).tcp_info_sum_closed % modulus w
          ≡ (g t.tcp_info_sum_closed + kept os t) % modulus w
    run-sum [] t = ap (λ n. n % modulus w) (omega arith)
    run-sum (o ∷ os) t =
        run-sum os (step o t)
        ∙ mod_cong w _ _ (kept os (step o t)) (step-sum o t)
        ∙ ap (λ n. n % modulus w) (omega arith)

    -- After any operations on a new tracker, a counter of TcpInfo is the sum, modulo the width of the
    -- counter, of what every connection that was closed had at its first Close, and of what the active
    -- connections have, where one that does not answer counts for nothing.
    pub run-total :
        (s : Sockets) (mean : List ℕ → ℕ) (os : List Operation) (rates : ℕ → ℕ)
        → g (tcp_info s mean (run os (new_conn_tracker rates))).0
          ≡ (kept os (new_conn_tracker rates)
              + total (amount s g) (run os (new_conn_tracker rates)).active)
            % modulus w
    unfolding new_conn_tracker
    run-total s mean os rates =
        let t : ConnTracker = run os (new_conn_tracker rates) in
        tcp_info-total s g w k mean t
        ∙ mod_cong w _ _ (total (amount s g) t.active) (run-sum os (new_conn_tracker rates))
        ∙ ap (λ n. (n + kept os (new_conn_tracker rates) + total (amount s g) t.active) % modulus w)
            k.zero
        ∙ ap (λ n. n % modulus w) (omega arith)
