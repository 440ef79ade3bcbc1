-- ===== src/ConnTracker/InStep.antt =====
-- Every active socket of conntracker/conntracker.go has the rate that the tracker records, as long
-- as operations run one after another and the system calls succeed.
use deliverator.Base.{
  ℕ, ◌<◌, ◌≡◌, arith, true, none, List, [], ◌∷◌, ◌==◌, ==_iff, Bool-cases, inl, inr, ltb,
}
use deliverator.ConnTracker.Tracker.{
  ConnTracker, new_conn_tracker, Sockets, update, rate_passed, rate_error, set_conn_pacing_rate,
  set_pacing_rate, Dialed, dial_error, untrackable, conn, pace_new, add_conn, dial_context, delete,
  mark_closed, close,
}
use deliverator.ConnTracker.Pacing.{member, set_each-rate}
use deliverator.ConnTracker.Lifecycle.{
  Step, dials, closes, sets, Reach, here, next, IsTracked, Step-IsTracked, new-IsTracked,
}

-- System calls that set any rate of any connection.
abbrev pub Works : Sockets → Type 0
Works s = (c pace : ℕ) → rate_error s c pace ≡ none

abbrev pub IsInStep : ConnTracker → Type 0
IsInStep t =
    0 < t.upload_pace
    → (c : ℕ) → member c t.active ≡ true
    → t.max_pacing_rate c ≡ rate_passed t.upload_pace

module _ (s : Sockets) (works : Works s) (t : ConnTracker) (v : IsTracked t) (i : IsInStep t) where
  dial_context-InStep : (d : Dialed) → IsInStep (dial_context s d t).0
  unfolding dial_context pace_new add_conn set_conn_pacing_rate update
  dial_context-InStep (dial_error e) = i
  dial_context-InStep untrackable = i
  dial_context-InStep conn = elim (Bool-cases (ltb 0 t.upload_pace)) [
    | inl e ↦ rw e (λ h c m. ground (arith, works t.next t.upload_pace, i h c, ==_iff t.next c))
    | inr e ↦ rw e (λ h c m. absurd (ground arith))
  ]

  member-delete_le : (c j : ℕ) (cs : List ℕ) → member j (delete c cs) ≡ true → member j cs ≡ true
  unfolding delete
  member-delete_le c j [] h = h
  member-delete_le c j (d ∷ ds) h = ground (arith, member-delete_le c j ds)

  close-InStep : (c : ℕ) → IsInStep (close s c t)
  unfolding close mark_closed
  close-InStep c = elim (Bool-cases (t.once c)) [
    | inl e ↦ rw e i
    | inr e ↦ rw e (λ h j m. i h j (member-delete_le c j t.active m))
  ]

  set_pacing_rate-InStep : (pace : ℕ) → IsInStep (set_pacing_rate s pace t).0
  unfolding set_pacing_rate
  set_pacing_rate-InStep pace = elim (Bool-cases (pace == t.upload_pace)) [
    | inl e ↦ rw e i
    | inr e ↦
        rw e
          (λ h j m. ground (arith, works j pace, set_each-rate s t.max_pacing_rate pace t.active j))
  ]

Step-InStep : {t u : ConnTracker} → Step Works t u → IsTracked t → IsInStep t → IsInStep u
Step-InStep {t = t} (dials s w d) v i = dial_context-InStep s w t v i d
Step-InStep {t = t} (closes s w c lt) v i = close-InStep s w t v i c
Step-InStep {t = t} (sets s w pace) v i = set_pacing_rate-InStep s w t v i pace

reach :
    (rates : ℕ → ℕ) {t : ConnTracker}
    → Reach Works (new_conn_tracker rates) t
    → IsTracked t × IsInStep t
unfolding new_conn_tracker
reach rates here = (new-IsTracked rates, λ h c m. cc)
reach rates (next r st) = let (v, i) = reach rates r in (Step-IsTracked st v, Step-InStep st v i)

-- After any sequence of dials, rate changes and closes, one after another, in which every system
-- call that sets a rate succeeds: if the recorded rate is not 0, each active connection's socket
-- has the 32 bits of it that setsockopt passes on.
pub Reach-InStep :
    (rates : ℕ → ℕ) (t : ConnTracker)
    → Reach Works (new_conn_tracker rates) t
    → 0 < t.upload_pace
    → (c : ℕ) → member c t.active ≡ true
    → t.max_pacing_rate c ≡ rate_passed t.upload_pace
Reach-InStep rates t r = (reach rates r).1
