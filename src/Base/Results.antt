-- ===== src/Base/Results.antt =====
-- What a Go call does: it returns, or it panics.
use Prim.Native.String.{String}
use mathlib.Core.Path.{◌≡◌, refl}
use mathlib.Core.Logic.{◌⊎◌, inl, inr}
use mathlib.Core.Bool.{Bool, true, false}
use deliverator.Base.Tests.{if◌then◌else◌}

pub data Outcome {ℓ} (A : Type ℓ) : Type ℓ where
  returned : A → Outcome A
  panicked : String → Outcome A

infixl 5 ◌>>=◌
abbrev pub ◌>>=◌ {ℓ κ} : {A : Type ℓ} {B : Type κ} → Outcome A → (A → Outcome B) → Outcome B
returned a >>= f = f a
panicked m >>= f = panicked m

-- Inversion of a bind that returned.
pub >>=-eq-returned {ℓ κ} :
    {A : Type ℓ} {B : Type κ} (m : Outcome A) (f : A → Outcome B) {b : B}
    → (m >>= f) ≡ returned b
    → (a : A) × (m ≡ returned a) × (f a ≡ returned b)
>>=-eq-returned (returned a) f h = (a, refl, h)
>>=-eq-returned (panicked m) f h = cc

pub returned-injective {ℓ} : {A : Type ℓ} {a b : A} → returned a ≡ returned b → a ≡ b
returned-injective h = cc

pub Outcome-cases {ℓ} :
    {A : Type ℓ} (m : Outcome A)
    → ((a : A) × (m ≡ returned a)) ⊎ ((msg : String) × (m ≡ panicked msg))
Outcome-cases (returned a) = inl (a, refl)
Outcome-cases (panicked m) = inr (m, refl)

-- P holds of what is returned, if anything is.
pub data Holds {A : Type 0} (P : A → Type 0) : Outcome A → Type 0 where
  returns : {a : A} → P a → Holds P (returned a)
  panics : {msg : String} → Holds P (panicked msg)

pub bind-Holds :
    {A B : Type 0} {Q : A → Type 0} {P : B → Type 0} {m : Outcome A} {f : A → Outcome B}
    → Holds Q m
    → ((a : A) → Q a → Holds P (f a))
    → Holds P (m >>= f)
bind-Holds (returns {a = a} q) h = h a q
bind-Holds panics h = panics

pub any-Holds : {A : Type 0} (m : Outcome A) → Holds (λ a. Unit) m
any-Holds (returned a) = returns tt
any-Holds (panicked msg) = panics

pub if-Holds :
    {A : Type 0} {P : A → Type 0} (b : Bool) {m n : Outcome A}
    → Holds P m
    → Holds P n
    → Holds P (if b then m else n)
if-Holds true hm hn = hm
if-Holds false hm hn = hn
