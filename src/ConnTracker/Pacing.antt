-- ===== src/ConnTracker/Pacing.antt =====
-- SetPacingRate of conntracker/conntracker.go: which sockets get the new rate, and which errors
-- come back.
use deliverator.Base.{
  ℕ, ◌≡◌, ◌≢◌, ◌↔◌, refl, arith, Bool, true, false, not, ◌&&◌, ◌||◌, none, List, [], ◌∷◌, ◌==◌,
  ==_iff, ==-false, if◌then◌else◌, is_some, All, Option-cases, inl, inr,
}
use deliverator.Errors.{GoError}
use deliverator.ConnTracker.Tracker.{
  ConnTracker, Sockets, update, rate_passed, join_all, rate_error, set_conn_pacing_rate, set_each,
  set_pacing_rate,
}

-- Whether a connection is among those given.
abbrev pub member : ℕ → List ℕ → Bool
member c [] = false
member c (d ∷ ds) = d == c || member c ds

module _ (s : Sockets) where
  -- Whether the system calls that set the rate of c succeed.
  abbrev pub accepts : ℕ → ℕ → Bool
  accepts c pace = not (is_some (rate_error s c pace))

  pub set_conn-rate :
      (rates : ℕ → ℕ) (c pace j : ℕ)
      → (set_conn_pacing_rate s rates c pace).0 j
        ≡ (if c == j && accepts j pace then rate_passed pace else rates j)
  unfolding set_conn_pacing_rate update
  set_conn-rate rates c pace j = ground (arith, ==_iff c j)

  pub set_each-rate :
      (rates : ℕ → ℕ) (pace : ℕ) (cs : List ℕ) (j : ℕ)
      → (set_each s rates pace cs).0 j
        ≡ (if member j cs && accepts j pace then rate_passed pace else rates j)
  unfolding set_each
  set_each-rate rates pace [] j = refl
  set_each-rate rates pace (c ∷ cs) j = ground (
    arith,
    set_each-rate (set_conn_pacing_rate s rates c pace).0 pace cs j,
    set_conn-rate rates c pace j,
  )

  pub join_all-cons : (e : GoError) (es : List GoError) → join_all (e ∷ es) ≢ none
  join_all-cons e es = ground arith

  pub set_each-errors :
      (rates : ℕ → ℕ) (pace : ℕ) (cs : List ℕ)
      → (join_all (set_each s rates pace cs).1 ≡ none) ↔ All (λ c. accepts c pace ≡ true) cs
  unfolding set_each set_conn_pacing_rate
  set_each-errors rates pace [] = (λ e. tt, λ h. refl)
  set_each-errors rates pace (c ∷ cs) = elim (Option-cases (rate_error s c pace)) [
    | inl e ↦
        rw (e, set_each, set_conn_pacing_rate)
          (
            λ h. (refl, (set_each-errors (set_conn_pacing_rate s rates c pace).0 pace cs).0 h),
            λ h. (set_each-errors (set_conn_pacing_rate s rates c pace).0 pace cs).1 h.1,
          )
    | inr (x, e) ↦
        rw (e, set_each, set_conn_pacing_rate)
          (
            λ h.
                absurd (
                  join_all-cons x (set_each s (set_conn_pacing_rate s rates c pace).0 pace cs).1 h),
            λ h. cc h.0,
          )
  ]

  -- SetPacingRate leaves the tracker alone, with no error, if it has the rate already. Otherwise it
  -- records the rate; a socket has then the 32 bits of the rate that setsockopt keeps if it is among
  -- the active connections and its calls succeed, and the rate that it had before if not; the
  -- calls succeed on every active connection exactly when no error comes back; and nothing else of
  -- the tracker changes.
  pub set_pacing_rate_lem :
      (pace : ℕ) (t : ConnTracker)
      → (pace ≡ t.upload_pace → set_pacing_rate s pace t ≡ (t, none))
        × (pace ≢ t.upload_pace
            → (rates : ℕ → ℕ) × ((set_pacing_rate s pace t).0
                ≡ record t { upload_pace = pace; max_pacing_rate = rates })
              × ((j : ℕ)
                  → rates j ≡ (
                      if member j t.active && accepts j pace
                      then rate_passed pace
                      else t.max_pacing_rate j))
              × (((set_pacing_rate s pace t).1 ≡ none) ↔ All (λ c. accepts c pace ≡ true) t.active))
  unfolding set_pacing_rate
  set_pacing_rate_lem pace t = (
    λ e. rw ((==_iff pace t.upload_pace).1 e),
    λ ne. (
      (set_each s t.max_pacing_rate pace t.active).0,
      rw (==-false pace t.upload_pace ne),
      set_each-rate t.max_pacing_rate pace t.active,
      rw (==-false pace t.upload_pace ne) (set_each-errors t.max_pacing_rate pace t.active),
    ),
  )
