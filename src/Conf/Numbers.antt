-- ===== src/Conf/Numbers.antt =====
-- Decimal numbers as conf/conf.go uses them. Of strconv.Atoi and strconv.ParseInt(s, 10, 64) it
-- takes the value and ignores the error: a syntax error gives 0, and a number out of range the
-- nearest int64. strconv.Itoa and FormatInt print.
pub mod RoundTrip
use Prim.Native.Char.{Char, code}
use Prim.Native.String.{String}
use deliverator.Base.{
  ℕ, zero, suc, ◌/◌, ◌%◌, ◌+◌, ◌-◌, ◌*◌, ◌^◌, ◌&&◌, Option, none, some, leb, ◌==◌, if◌then◌else◌,
}
use deliverator.Base.Int.{ℤ, pos, negsuc, sub_ℕ}

-- The digits up to the end of the text, after those that make n.
unfoldable pub digits : ℕ → String → Option ℕ
digits n String.[] = some n
digits n (String.◌∷◌ c s) =
    let rest = digits (n * 10 + (code c - b'0')) s in
    if leb b'0' (code c) && leb (code c) b'9' then rest else none

-- At least one digit.
unfoldable pub unsigned : String → Option ℕ
unfolding digits
unsigned String.[] = none
unsigned (String.◌∷◌ c s) = digits 0 (String.◌∷◌ c s)

unfoldable pub clamp_pos : Option ℕ → ℤ
clamp_pos none = pos 0
clamp_pos (some n) = if leb n (2 ^ 63 - 1) then pos n else pos (2 ^ 63 - 1)

unfoldable pub clamp_neg : Option ℕ → ℤ
clamp_neg none = pos 0
clamp_neg (some n) = if leb n (2 ^ 63) then sub_ℕ 0 n else negsuc (2 ^ 63 - 1)

unfoldable pub parse_int : String → ℤ
unfolding unsigned clamp_pos clamp_neg
parse_int String.[] = pos 0
parse_int (String.◌∷◌ c s) =
    if code c == b'-'
    then clamp_neg (unsigned s)
    else if code c == b'+'
    then clamp_pos (unsigned s)
    else clamp_pos (unsigned (String.◌∷◌ c s))

unfoldable pub digit : ℕ → Char
digit d =
    if d == 0
    then "0"
    else if d == 1
    then "1"
    else if d == 2
    then "2"
    else if d == 3
    then "3"
    else if d == 4
    then "4"
    else if d == 5
    then "5"
    else if d == 6
    then "6"
    else if d == 7
    then "7"
    else if d == 8
    then "8"
    else "9"

-- The digits of n before a text, at most as many as the fuel says.
unfoldable pub print : ℕ → ℕ → String → String
print zero n s = String.◌∷◌ (digit (n % 10)) s
print (suc fuel) n s =
    let more = print fuel (n / 10) (String.◌∷◌ (digit (n % 10)) s) in
    if leb n 9 then String.◌∷◌ (digit n) s else more

-- strconv.Itoa and strconv.FormatInt(z, 10). A number has fewer digits than it counts.
unfoldable pub itoa : ℤ → String
unfolding print
itoa (pos n) = print n n ""
itoa (negsuc n) = String.◌∷◌ "-" (print (suc n) (suc n) "")
