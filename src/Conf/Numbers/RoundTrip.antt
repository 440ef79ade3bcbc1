-- ===== src/Conf/Numbers/RoundTrip.antt =====
-- Every int64 that strconv.Itoa prints is read back by strconv.Atoi.
use Prim.Native.Char.{Char, code}
use Prim.Native.String.{String}
use deliverator.Base.{
  ℕ, zero, suc, ◌+◌, ◌*◌, ◌/◌, ◌%◌, ◌^◌, ◌≤◌, ◌<◌, ◌≡◌, ◌∙◌, ap, sym, subst, leb-cases, inl, inr,
  refl, arith, Bool, true, false, some, if◌then◌else◌,
}
use deliverator.Base.Int.{ℤ, pos, negsuc, pos_part, neg_part}
use deliverator.Conf.Numbers.{digits, unsigned, clamp_pos, clamp_neg, parse_int, digit, print, itoa}

code-if : (b : Bool) (c d : Char) → code (if b then c else d) ≡ (if b then code c else code d)
code-if true c d = refl
code-if false c d = refl

code-digit : (d : ℕ) → d < 10 → code (digit d) ≡ b'0' + d
unfolding digit
code-digit d h = simp code-if (ground arith)

digits-digit :
    (n d m : ℕ) (s : String)
    → d < 10
    → n * 10 + d ≡ m
    → digits n (String.◌∷◌ (digit d) s) ≡ digits m s
unfolding digits
digits-digit n d m s h e = ground (arith, code-digit d h)

digits-print : (fuel n : ℕ) (s : String) → n ≤ fuel → digits 0 (print fuel n s) ≡ digits n s
unfolding print
digits-print zero n s h = digits-digit 0 (n % 10) n s (omega arith) (omega arith)
digits-print (suc fuel) n s h = elim (leb-cases n 9) [
  | inl (le, e) ↦ rw e (digits-digit 0 n n s (omega arith) (omega arith))
  | inr (gt, e) ↦ rw e (
      digits-print fuel (n / 10) (String.◌∷◌ (digit (n % 10)) s) (omega arith)
      ∙ digits-digit (n / 10) (n % 10) n s (omega arith) (omega arith))
]

-- The print of a number is a digit before other text.
starts :
    (fuel n : ℕ) (s : String)
    → (d : ℕ) × (t : String) × (d < 10) × (print fuel n s ≡ String.◌∷◌ (digit d) t)
unfolding print
starts zero n s = (n % 10, s, omega arith, refl)
starts (suc fuel) n s = elim (leb-cases n 9) [
  | inl (le, e) ↦ (n, s, omega arith, rw e)
  | inr (gt, e) ↦
      let (d, t, lt, eq) = starts fuel (n / 10) (String.◌∷◌ (digit (n % 10)) s) in
      (d, t, lt, rw e eq)
]

unsigned-print : (n : ℕ) → unsigned (print n n "") ≡ some n
unfolding unsigned digits
unsigned-print n =
    let (d, t, lt, e) = starts n n "" in
    subst (λ x. unsigned x ≡ digits 0 x) (sym e) refl ∙ digits-print n n "" (omega arith)

unsigned-digit :
    (d : ℕ) (t : String)
    → d < 10
    → parse_int (String.◌∷◌ (digit d) t) ≡ clamp_pos (unsigned (String.◌∷◌ (digit d) t))
unfolding parse_int
unsigned-digit d t h = ground (arith, code-digit d h)

-- Every int64 that strconv.Itoa or strconv.FormatInt prints is read back by strconv.Atoi and by
-- strconv.ParseInt as it was.
pub parse_int-itoa : (z : ℤ) → neg_part z ≤ 2 ^ 63 → pos_part z < 2 ^ 63 → parse_int (itoa z) ≡ z
unfolding parse_int itoa clamp_pos clamp_neg
parse_int-itoa (pos n) lo hi =
    let (d, t, lt, e) = starts n n "" in
    subst (λ x. parse_int x ≡ clamp_pos (unsigned x)) (sym e) (unsigned-digit d t lt)
    ∙ ap clamp_pos (unsigned-print n)
    ∙ ground arith
parse_int-itoa (negsuc n) lo hi = ap clamp_neg (unsigned-print (suc n)) ∙ ground arith
