-- ===== src/Base/Perms.antt =====
-- Lists in another order.
use mathlib.Core.Path.{ap, subst}
use mathlib.Core.List.{List, map, Permᴰ}
use mathlib.Core.List.Permᴰ.{nil, cons, swap, trans}
use deliverator.Base.Lists.{All}

module _ {ℓ} {A : Type ℓ} where
  pub All-Perm {κ} : (P : A → Type κ) {xs ys : List A} → Permᴰ xs ys → All P xs → All P ys
  All-Perm P nil h = h
  All-Perm P (cons e p) h = (subst P e h.0, All-Perm P p h.1)
  All-Perm P (swap e g) h = (subst P g h.1.0, (subst P e h.0, h.1.1))
  All-Perm P (trans p q) h = All-Perm P q (All-Perm P p h)

  pub map-Perm {κ} :
      {B : Type κ} (f : A → B) {xs ys : List A} → Permᴰ xs ys → Permᴰ (map f xs) (map f ys)
  map-Perm f nil = nil
  map-Perm f (cons e p) = cons (ap f e) (map-Perm f p)
  map-Perm f (swap e g) = swap (ap f e) (ap f g)
  map-Perm f (trans p q) = trans (map-Perm f p) (map-Perm f q)
