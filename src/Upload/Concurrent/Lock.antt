-- ===== src/Upload/Concurrent/Lock.antt =====
-- What the semaphore of upload/handler.go promises to the requests, without its state or theirs: a
-- bag of loans that together do not exceed a limit.
use mathlib.Core.Quot
use mathlib.Core.Quot.{Quot, Quot-set}
use native.Mathlib.Nat.{ℕ_set}
use deliverator.Base.{
  ℕ, ◌+◌, ◌≤◌, ◌≡◌, refl, sym, ap, ◌∙◌, arith, List, [], ◌∷◌, ◌++◌, total, total-append,
}

-- The second list has an entry of the first one at its front.
abbrev IsBrought : List ℕ → List ℕ → Type 0
IsBrought xs ys =
    (before after : List ℕ) × (n : ℕ) × (xs ≡ before ++ n ∷ after) × (ys ≡ n ∷ before ++ after)

-- Loans, in no order.
abbrev pub Loans : Type 0
Loans = Quot IsBrought

IsBrought-total : (xs ys : List ℕ) → IsBrought xs ys → total (λ n. n) xs ≡ total (λ n. n) ys
IsBrought-total xs ys (before, after, n, e, f) = omega (
  arith,
  ap (total (λ n. n)) e ∙ total-append (λ n. n) before (n ∷ after),
  ap (total (λ n. n)) f,
  total-append (λ n. n) before after,
)

-- The units that are lent.
pub lent : Loans → ℕ
lent = Quot.lift ℕ_set (total (λ n. n)) IsBrought-total

brought :
    (before after : List ℕ) (n : ℕ)
    → ◌≡◌ {A = Loans} (Quot.mk (before ++ n ∷ after)) (Quot.mk (n ∷ before ++ after))
brought before after n = Quot.sound (before, after, n, refl, refl)

lend-brought :
    (x : ℕ) (xs ys : List ℕ)
    → IsBrought xs ys
    → ◌≡◌ {A = Loans} (Quot.mk (x ∷ xs)) (Quot.mk (x ∷ ys))
lend-brought x xs ys (before, after, n, e, f) =
    ap (λ zs. Quot.mk (x ∷ zs)) e
    ∙ brought (x ∷ before) after n
    ∙ sym (brought (x ∷ []) (before ++ after) n)
    ∙ ap (λ zs. Quot.mk (x ∷ zs)) (sym f)

-- A further loan.
pub lend : ℕ → Loans → Loans
lend x = Quot.lift Quot-set (λ xs. Quot.mk (x ∷ xs)) (lend-brought x)

-- A step of the promise, for a limit: nothing changes, a loan is made that fits the limit, or one
-- is given back.
pub data Promise (limit : ℕ) (b c : Loans) : Type 0 where
  nothing : c ≡ b → Promise limit b c
  lends : (n : ℕ) → lent b + n ≤ limit → c ≡ lend n b → Promise limit b c
  gives_back : (n : ℕ) → b ≡ lend n c → Promise limit b c

-- The loans of a list, and a loan among others.
abbrev pub loans : List ℕ → Loans
loans xs = Quot.mk xs

pub loans-among :
    (before after : List ℕ) (n : ℕ) → loans (before ++ n ∷ after) ≡ lend n (loans (before ++ after))
unfolding lend
loans-among before after n = brought before after n

pub lent-loans : (xs : List ℕ) → lent (loans xs) ≡ total (λ n. n) xs
unfolding lent
lent-loans xs = refl
