-- ===== src/ConnTracker/Order.antt =====
-- The iteration over the map of active connections in conntracker/conntracker.go, whose order Go
-- leaves open.
mod Perms
use mathlib.Core.List.{Permᴰ}
use mathlib.Core.List.Permᴰ
use mathlib.Core.List.Permᴰ.{nil, cons, swap, trans}
use deliverator.Base.{
  All-Perm, ℕ, ◌≢◌, suc, ◌+◌, ◌%◌, ◌≡◌, ◌↔◌, ◌⊎◌, refl, sym, ap, ◌∙◌, subst, fun_ext, arith, Bool,
  true, false, ◌&&◌, ◌||◌, none, List, [], ◌∷◌, ◌==◌, ==_iff, if◌then◌else◌, All, length, total,
  Bool-cases, inl, inr, ltb,
}
use deliverator.Errors.{GoError, wrap}
use deliverator.ConnTracker.TcpInfo.{TcpInfo, empty, add_tcp_info}
use deliverator.ConnTracker.Tracker.{
  ConnTracker, Sockets, Dialed, dial_error, untrackable, conn, rate_passed, add_conn, pace_new,
  dial_context, delete, mark_closed, join_all, close, set_each, set_pacing_rate, sum_each, tcp_info,
  info, failed, conn_tcp_info, Answer, connections,
}
use Perms.{member-Perm, length-Perm, total-Perm, delete-Perm}
use deliverator.ConnTracker.Pacing.{member, accepts, set_each-rate, set_each-errors, join_all-cons}
use deliverator.ConnTracker.Totals.{Width, modulus, IsCounter, amount, tcp_info-total}

-- The same tracker, with another order of the map.
pub data Reordered (t : ConnTracker) : ConnTracker → Type 0 where
  reorders : (ys : List ℕ) → Permᴰ t.active ys → Reordered t (record t { active = ys })

module _ (s : Sockets) where
  dial_context-Reordered :
      (d : Dialed) {t u : ConnTracker}
      → Reordered t u
      → Reordered (dial_context s d t).0 (dial_context s d u).0
        × ((dial_context s d t).1 ≡ (dial_context s d u).1)
        × ((dial_context s d t).2 ≡ (dial_context s d u).2)
  unfolding dial_context add_conn pace_new
  dial_context-Reordered (dial_error e) (reorders ys p) = (reorders ys p, refl, refl)
  dial_context-Reordered untrackable (reorders ys p) = (reorders ys p, refl, refl)
  dial_context-Reordered conn {t = t} (reorders ys p) = elim (Bool-cases (ltb 0 t.upload_pace)) [
    | inl h ↦ rw h (reorders (t.next ∷ ys) (cons refl p), refl, refl)
    | inr h ↦ rw h (reorders (t.next ∷ ys) (cons refl p), refl, refl)
  ]

  close-Reordered :
      (c : ℕ) {t u : ConnTracker} → Reordered t u → Reordered (close s c t) (close s c u)
  unfolding close mark_closed
  close-Reordered c {t = t} (reorders ys p) = elim (Bool-cases (t.once c)) [
    | inl h ↦ rw h (reorders ys p)
    | inr h ↦ rw h (reorders (delete c ys) (delete-Perm c p))
  ]

  set_each-Perm :
      (rates : ℕ → ℕ) (pace : ℕ) {xs ys : List ℕ}
      → Permᴰ xs ys
      → (set_each s rates pace xs).0 ≡ (set_each s rates pace ys).0
  set_each-Perm rates pace {xs = xs} {ys = ys} p = fun_ext (λ j.
      set_each-rate s rates pace xs j
      ∙ ap (λ b. if b && accepts s j pace then rate_passed pace else rates j) (member-Perm j p)
      ∙ sym (set_each-rate s rates pace ys j))

  errors-Perm :
      (rates : ℕ → ℕ) (pace : ℕ) {xs ys : List ℕ}
      → Permᴰ xs ys
      → (join_all (set_each s rates pace xs).1 ≡ none)
      → (join_all (set_each s rates pace ys).1 ≡ none)
  errors-Perm rates pace {xs = xs} {ys = ys} p h =
      (set_each-errors s rates pace ys).1
        (All-Perm (λ c. accepts s c pace ≡ true) p ((set_each-errors s rates pace xs).0 h))

  set_pacing_rate-Reordered :
      (pace : ℕ) {t u : ConnTracker}
      → Reordered t u
      → Reordered (set_pacing_rate s pace t).0 (set_pacing_rate s pace u).0
        × (((set_pacing_rate s pace t).1 ≡ none) ↔ ((set_pacing_rate s pace u).1 ≡ none))
  unfolding set_pacing_rate
  set_pacing_rate-Reordered pace {t = t} (reorders ys p) =
      elim (Bool-cases (pace == t.upload_pace)) [
        | inl h ↦ rw h (reorders ys p, (λ x. x, λ x. x))
        | inr h ↦ rw h (
          subst
              (λ r.
                Reordered
                  (record t {
                    upload_pace = pace;
                    max_pacing_rate = (set_each s t.max_pacing_rate pace t.active).0;
                  })
                  (record t { upload_pace = pace; max_pacing_rate = r; active = ys }))
              (set_each-Perm t.max_pacing_rate pace p) (reorders ys p),
          (errors-Perm t.max_pacing_rate pace p, errors-Perm t.max_pacing_rate pace (Permᴰ.symm p)),
        )
      ]

  -- The connection answers with its statistics.
  abbrev Answers : ℕ → Type 0
  Answers c = (i : TcpInfo) × (conn_tcp_info s c ≡ info i)

  failed-ne-info : (e : GoError) (i : TcpInfo) → failed e ≢ info i
  failed-ne-info e i h = cc

  errors-cons :
      (a : Answer) (es : List GoError)
      → (join_all (elim a [ failed e ↦ wrap e "getConnTcpInfo()" ∷ es | info i ↦ es ]) ≡ none)
        ↔ ((i : TcpInfo) × (a ≡ info i)) × (join_all es ≡ none)
  errors-cons (failed e) es = (
    λ x. absurd (join_all-cons s (wrap e "getConnTcpInfo()") es x),
    λ x. absurd (failed-ne-info e x.0.0 x.0.1),
  )
  errors-cons (info i) es = (λ x. ((i, refl), x), λ x. x.1)

  sum_each-errors :
      (acc : TcpInfo) (cs : List ℕ) → (join_all (sum_each s acc cs).2 ≡ none) ↔ All Answers cs
  unfolding sum_each
  sum_each-errors acc [] = (λ h. tt, λ h. refl)
  sum_each-errors acc (c ∷ cs) =
      let acc' : TcpInfo = elim (conn_tcp_info s c) [
        | failed e ↦ acc
        | info i ↦ add_tcp_info acc i
      ] in
      let front = errors-cons (conn_tcp_info s c) (sum_each s acc' cs).2 in
      let rest = sum_each-errors acc' cs in
      (λ x. let (y, z) = front.0 x in (y, rest.0 z), λ x. front.1 (x.0, rest.1 x.1))

  tcp_info-Reordered :
      (mean : List ℕ → ℕ) {t u : ConnTracker}
      → Reordered t u
      → ((tcp_info s mean t).1 ≡ none)
      → ((tcp_info s mean u).1 ≡ none)
  unfolding tcp_info
  tcp_info-Reordered mean {t = t} (reorders ys p) h =
      (sum_each-errors empty ys).1 (All-Perm Answers p ((sum_each-errors empty t.active).0 h))

  symm-Reordered : {t u : ConnTracker} → Reordered t u → Reordered u t
  symm-Reordered {t = t} (reorders ys p) = reorders t.active (Permᴰ.symm p)

  counter-Reordered :
      {g : TcpInfo → ℕ} {w : Width}
      → IsCounter g w
      → (mean : List ℕ → ℕ) {t u : ConnTracker} → Reordered t u
      → g (tcp_info s mean t).0 ≡ g (tcp_info s mean u).0
  counter-Reordered {g = g} {w = w} k mean {t = t} (reorders ys p) =
      tcp_info-total s g w k mean t
      ∙ ap (λ n. (g t.tcp_info_sum_closed + n) % modulus w) (total-Perm (amount s g) p)
      ∙ sym (tcp_info-total s g w k mean (record t { active = ys }))

  connections-Reordered : {t u : ConnTracker} → Reordered t u → connections t ≡ connections u
  unfolding connections
  connections-Reordered {t = t} (reorders ys p) = ap (λ n. (n, t.closed)) (length-Perm p)

  -- The order in which Go iterates over the map of active connections is forgotten by every operation.
  -- For two trackers that differ in it only, with system calls that answer the same, each of
  -- DialContext, Close and SetPacingRate gives two that again differ in it only, DialContext returns
  -- the same connection and error, SetPacingRate and TcpInfo return an error for both or for neither,
  -- and Connections and each counter of TcpInfo are the same.
  pub operations-Reordered :
      {t u : ConnTracker}
      → Reordered t u
      → ((d : Dialed)
          → Reordered (dial_context s d t).0 (dial_context s d u).0
            × ((dial_context s d t).1 ≡ (dial_context s d u).1)
            × ((dial_context s d t).2 ≡ (dial_context s d u).2))
        × ((c : ℕ) → Reordered (close s c t) (close s c u))
        × ((pace : ℕ)
            → Reordered (set_pacing_rate s pace t).0 (set_pacing_rate s pace u).0
              × (((set_pacing_rate s pace t).1 ≡ none) ↔ ((set_pacing_rate s pace u).1 ≡ none)))
        × (connections t ≡ connections u)
        × ((mean : List ℕ → ℕ)
            → (((tcp_info s mean t).1 ≡ none) ↔ ((tcp_info s mean u).1 ≡ none))
              × ((g : TcpInfo → ℕ) (w : Width)
                  → IsCounter g w
                  → g (tcp_info s mean t).0 ≡ g (tcp_info s mean u).0))
  operations-Reordered r = (
    λ d. dial_context-Reordered d r,
    λ c. close-Reordered c r,
    λ pace. set_pacing_rate-Reordered pace r,
    connections-Reordered r,
    λ mean. (
      (tcp_info-Reordered mean r, tcp_info-Reordered mean (symm-Reordered r)),
      λ g w k. counter-Reordered k mean r,
    ),
  )
