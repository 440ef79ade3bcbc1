-- ===== src/ConnTracker/Order/Perms.antt =====
-- Lists of connections of conntracker/conntracker.go in another order.
use mathlib.Core.List.{Permᴰ}
use mathlib.Core.List.Permᴰ
use mathlib.Core.List.Permᴰ.{nil, cons, swap, trans}
use deliverator.Base.{
  ℕ, suc, ◌≡◌, refl, sym, ap, ◌∙◌, subst, arith, Bool, true, false, ◌||◌, List, ◌∷◌, ◌==◌, ==_iff,
  length, total, Bool-cases, inl, inr,
}
use deliverator.ConnTracker.Tracker.{delete}
use deliverator.ConnTracker.Pacing.{member}

or_swap : (x y z : Bool) → (x || (y || z)) ≡ (y || (x || z))
or_swap true true z = refl
or_swap true false z = refl
or_swap false true z = refl
or_swap false false z = refl

pub member-Perm : (c : ℕ) {xs ys : List ℕ} → Permᴰ xs ys → member c xs ≡ member c ys
member-Perm c nil = refl
member-Perm c (cons {b = b} {l₁ = xs} e p) =
    ap (λ d. d == c || member c xs) e ∙ ap (λ m. b == c || m) (member-Perm c p)
member-Perm c (swap {a = a} {b = b} {a' = x} {l = l} e g) =
    or_swap (a == c) (b == c) (member c l)
    ∙ ap (λ d. d == c || (a == c || member c l)) g
    ∙ ap (λ d. x == c || (d == c || member c l)) e
member-Perm c (trans p q) = member-Perm c p ∙ member-Perm c q

pub length-Perm : {xs ys : List ℕ} → Permᴰ xs ys → length xs ≡ length ys
length-Perm nil = refl
length-Perm (cons e p) = ap suc (length-Perm p)
length-Perm (swap e g) = refl
length-Perm (trans p q) = length-Perm p ∙ length-Perm q

pub total-Perm : (f : ℕ → ℕ) {xs ys : List ℕ} → Permᴰ xs ys → total f xs ≡ total f ys
total-Perm f nil = refl
total-Perm f (cons e p) = omega (arith, ap f e, total-Perm f p)
total-Perm f (swap e g) = omega (arith, ap f e, ap f g)
total-Perm f (trans p q) = total-Perm f p ∙ total-Perm f q

delete-swap : (c a b : ℕ) (l : List ℕ) → Permᴰ (delete c (a ∷ b ∷ l)) (delete c (b ∷ a ∷ l))
unfolding delete
delete-swap c a b l = elim (Bool-cases (a == c)) [
  | inl h ↦ elim (Bool-cases (b == c)) [
    | inl k ↦ rw (h, k, delete) (cons ((==_iff b c).0 k ∙ sym ((==_iff a c).0 h)) (Permᴰ.refl l))
    | inr k ↦ rw (h, k, delete) (Permᴰ.refl (b ∷ l))
  ]
  | inr h ↦ elim (Bool-cases (b == c)) [
    | inl k ↦ rw (h, k, delete) (Permᴰ.refl (a ∷ l))
    | inr k ↦ rw (h, k, delete) (swap refl refl)
  ]
]

pub delete-Perm : (c : ℕ) {xs ys : List ℕ} → Permᴰ xs ys → Permᴰ (delete c xs) (delete c ys)
unfolding delete
delete-Perm c nil = nil
delete-Perm c (cons {a = a} {b = b} {l₁ = xs} {l₂ = ys} e p) =
    subst (λ d. Permᴰ (delete c (a ∷ xs)) (delete c (d ∷ ys))) e
      (elim (Bool-cases (a == c)) [
        | inl h ↦ rw (h, delete) p
        | inr h ↦ rw (h, delete) (cons refl (delete-Perm c p))
      ])
delete-Perm c (swap {a = a} {b = b} {b' = f} {l = l} e g) =
    subst (λ d. Permᴰ (delete c (a ∷ b ∷ l)) (delete c (d ∷ f ∷ l))) g
      (subst (λ d. Permᴰ (delete c (a ∷ b ∷ l)) (delete c (b ∷ d ∷ l))) e (delete-swap c a b l))
delete-Perm c (trans p q) = trans (delete-Perm c p) (delete-Perm c q)
