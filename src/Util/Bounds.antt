-- ===== src/Util/Bounds.antt =====
-- The value of DivCeil: exact where the sum fits an int64, and what it is above.
use deliverator.Base.{ℕ, ◌+◌, ◌-◌, ◌*◌, ◌/◌, ◌^◌, ◌≤◌, ◌<◌, ◌≡◌, ◌≢◌, arith, returned}
use deliverator.Base.Int.{ℤ, pos, sub_ℕ, wrap64}
use deliverator.Util.{rounded, div_ceil}

pub div_ceil-pos :
    (a b : ℕ) → 0 < b → a + b ≤ 2 ^ 63 → div_ceil (pos a) (pos b) ≡ returned (pos ((a + b - 1) / b))
unfolding div_ceil wrap64
div_ceil-pos a b hb fits = ground arith

div-ceiling : (a b : ℕ) → 0 < b → (a ≤ (a + b - 1) / b * b) × ((a + b - 1) / b * b < a + b)
div-ceiling a b hb = grind arith

-- For a dividend a and a divisor b of at least 1 whose sum is at most 2 ^ 63, DivCeil returns a
-- number q, and q is the quotient rounded up: a ≤ q * b < a + b.
pub div_ceil_ceiling :
    (a b : ℕ)
    → 0 < b
    → a + b ≤ 2 ^ 63
    → (q : ℕ) × (div_ceil (pos a) (pos b) ≡ returned (pos q)) × (a ≤ q * b) × (q * b < a + b)
div_ceil_ceiling a b hb fits =
    ((a + b - 1) / b, div_ceil-pos a b hb fits, (div-ceiling a b hb).0, (div-ceiling a b hb).1)

-- For int64 arguments, both at least 1, whose sum is above 2 ^ 63, the sum in DivCeil wraps round
-- and the result is at most 0: it is the negation of a number.
pub div_ceil_overflow :
    (a b : ℕ)
    → 0 < a
    → 0 < b
    → a < 2 ^ 63
    → b < 2 ^ 63
    → 2 ^ 63 < a + b
    → div_ceil (pos a) (pos b) ≡ returned (sub_ℕ 0 ((2 ^ 64 - (a + b - 1)) / b))
unfolding div_ceil wrap64
div_ceil_overflow a b ha hb fa fb over = ground arith

-- DivCeil returns for every divisor but 0.
pub div_ceil-returned : (a b : ℤ) → b ≢ pos 0 → div_ceil a b ≡ returned (rounded a b)
unfolding div_ceil
div_ceil-returned a b h = ground arith
