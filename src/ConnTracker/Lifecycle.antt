-- ===== src/ConnTracker/Lifecycle.antt =====
-- The life of connections in conntracker/conntracker.go: dialed, paced, and closed once, in any
-- order. The invariant relates the map of active connections to the count of the closed ones.
use deliverator.Base.{
  ℕ, suc, ◌+◌, ◌%◌, ◌^◌, ◌≤◌, ◌<◌, ◌≡◌, refl, arith, true, false, not, List, [], ◌∷◌, ◌==◌, ==_iff,
  if◌then◌else◌, All, length, Bool-cases, inl, inr, ltb,
}
use deliverator.ConnTracker.Tracker.{
  ConnTracker, new_conn_tracker, Sockets, update, set_pacing_rate, Dialed, dial_error, untrackable,
  conn, pace_new, add_conn, dial_context, delete, mark_closed, close,
}
use deliverator.ConnTracker.Pacing.{member}

-- One operation on the tracker, with system calls that satisfy P. Only a connection that
-- DialContext has made is closed.
pub data Step (P : Sockets → Type 0) (t : ConnTracker) : ConnTracker → Type 0 where
  dials : (s : Sockets) → P s → (d : Dialed) → Step P t (dial_context s d t).0
  closes : (s : Sockets) → P s → (c : ℕ) → c < t.next → Step P t (close s c t)
  sets : (s : Sockets) → P s → (pace : ℕ) → Step P t (set_pacing_rate s pace t).0

pub data Reach (P : Sockets → Type 0) (t : ConnTracker) : ConnTracker → Type 0 where
  here : Reach P t t
  next : {u v : ConnTracker} → Reach P t u → Step P u v → Reach P t v

-- No connection twice.
abbrev pub Distinct : List ℕ → Type 0
Distinct [] = Unit
Distinct (c ∷ cs) = (member c cs ≡ false) × Distinct cs

pub record IsTracked (t : ConnTracker) : Type 0 where
  pub distinct : Distinct t.active
  pub below : All (λ c. c < t.next) t.active
  -- A connection is active exactly until its Close has run.
  pub open_until : (c : ℕ) → c < t.next → t.once c ≡ not (member c t.active)
  pub counted : (t.closed + length t.active) % 2 ^ 64 ≡ t.next % 2 ^ 64

pub member-below : (n c : ℕ) (cs : List ℕ) → All (λ d. d < n) cs → n ≤ c → member c cs ≡ false
member-below n c [] h le = refl
member-below n c (d ∷ ds) h le = ground (arith, member-below n c ds h.1 le)

below-weaken : (n : ℕ) (cs : List ℕ) → All (λ d. d < n) cs → All (λ d. d < suc n) cs
below-weaken n [] h = tt
below-weaken n (d ∷ ds) h = (omega arith, below-weaken n ds h.1)

delete-below : (n c : ℕ) (cs : List ℕ) → All (λ d. d < n) cs → All (λ d. d < n) (delete c cs)
unfolding delete
delete-below n c [] h = tt
delete-below n c (d ∷ ds) h = ground (arith, delete-below n c ds h.1)

member-delete :
    (c j : ℕ) (cs : List ℕ)
    → Distinct cs
    → member j (delete c cs) ≡ (if c == j then false else member j cs)
unfolding delete
member-delete c j [] h = ground arith
member-delete c j (d ∷ ds) h =
    ground (arith, member-delete c j ds h.1, ==_iff c j, ==_iff d j, ==_iff d c)

delete-Distinct : (c : ℕ) (cs : List ℕ) → Distinct cs → Distinct (delete c cs)
unfolding delete
delete-Distinct c [] h = tt
delete-Distinct c (d ∷ ds) h = ground (arith, delete-Distinct c ds h.1, member-delete c d ds h.1)

length-delete : (c : ℕ) (cs : List ℕ) → member c cs ≡ true → length (delete c cs) + 1 ≡ length cs
unfolding delete
length-delete c [] h = cc
length-delete c (d ∷ ds) h = ground (arith, length-delete c ds)

pub new-IsTracked : (rates : ℕ → ℕ) → IsTracked (new_conn_tracker rates)
unfolding new_conn_tracker
new-IsTracked rates = record {
  distinct = tt;
  below = tt;
  open_until = λ c h. elim h [ ];
  counted = omega arith;
}

module _ (s : Sockets) (t : ConnTracker) (v : IsTracked t) where
  open v use {distinct, below, open_until, counted}

  -- A new connection, with any rates.
  added-IsTracked : (rates : ℕ → ℕ) → IsTracked (record (add_conn t) { max_pacing_rate = rates })
  unfolding add_conn update
  added-IsTracked rates = record {
    distinct = (member-below t.next t.next t.active below (omega arith), distinct);
    below = (omega arith, below-weaken t.next t.active below);
    open_until =
        λ c h. ground (arith, open_until c, member-below t.next c t.active below, ==_iff t.next c);
    counted = omega arith;
  }

  dial_context-IsTracked : (d : Dialed) → IsTracked (dial_context s d t).0
  unfolding dial_context pace_new add_conn
  dial_context-IsTracked (dial_error e) = v
  dial_context-IsTracked untrackable = v
  dial_context-IsTracked conn = elim (Bool-cases (ltb 0 t.upload_pace)) [
    | inl e ↦ rw e (added-IsTracked _)
    | inr e ↦ rw e (added-IsTracked _)
  ]

  close-IsTracked : (c : ℕ) → c < t.next → IsTracked (close s c t)
  unfolding close mark_closed update
  close-IsTracked c lt = elim (Bool-cases (t.once c)) [
    | inl done ↦ rw done v
    | inr fresh ↦ rw fresh (record {
      distinct = delete-Distinct c t.active distinct;
      below = delete-below t.next c t.active below;
      open_until =
          λ j h. ground (arith, open_until j h, member-delete c j t.active distinct, ==_iff c j);
      counted = ground (arith, open_until c lt, length-delete c t.active);
    })
  ]

  set_pacing_rate-IsTracked : (pace : ℕ) → IsTracked (set_pacing_rate s pace t).0
  unfolding set_pacing_rate
  set_pacing_rate-IsTracked pace = elim (Bool-cases (pace == t.upload_pace)) [
    | inl e ↦ rw e v
    | inr e ↦
        rw e (record {
          distinct = distinct;
          below = below;
          open_until = open_until;
          counted = counted;
        })
  ]

-- Every operation keeps the invariant, whatever the system calls answer.
pub Step-IsTracked :
    {P : Sockets → Type 0} {t u : ConnTracker} → Step P t u → IsTracked t → IsTracked u
Step-IsTracked {t = t} (dials s p d) v = dial_context-IsTracked s t v d
Step-IsTracked {t = t} (closes s p c lt) v = close-IsTracked s t v c lt
Step-IsTracked {t = t} (sets s p pace) v = set_pacing_rate-IsTracked s t v pace

-- After any sequence of dials, rate changes and closes, failed ones included, no connection is
-- twice in the map, a connection is in it exactly until its Close has run, and the numbers of active
-- and of closed connections add up to the number of connections made, modulo 2 ^ 64.
pub Reach-IsTracked :
    {P : Sockets → Type 0} (rates : ℕ → ℕ) {t : ConnTracker}
    → Reach P (new_conn_tracker rates) t
    → IsTracked t
Reach-IsTracked rates here = new-IsTracked rates
Reach-IsTracked rates (next r st) = Step-IsTracked st (Reach-IsTracked rates r)

close-once : (s : Sockets) (t : ConnTracker) (c : ℕ) → (close s c t).once c ≡ true
unfolding close mark_closed update
close-once s t c = ground arith

close-closed : (s : Sockets) (t : ConnTracker) (c : ℕ) → t.once c ≡ true → close s c t ≡ t
unfolding close
close-closed s t c h = rw h

-- Closing a connection again changes nothing, whatever the system calls answer.
pub close_twice :
    (s s' : Sockets) (t : ConnTracker) (c : ℕ) → close s' c (close s c t) ≡ close s c t
close_twice s s' t c = close-closed s' (close s c t) c (close-once s t c)
