-- ===== src/Upload/Multipart/Timeout.antt =====
-- UploadTimeout of upload/handler.go against base * factor ^ (attempt - 1).
use native.Mathlib.Nat.{pow-zero, pow-suc}
use native.Mathlib.Decide.{dec_lt}
use deliverator.Base.{ℕ, zero, suc, ◌*◌, ◌^◌, ◌≤◌, ◌<◌, ◌≡◌, refl, ap, arith}
use deliverator.Base.Int.{pos}
use deliverator.Conf.{Conf}
use deliverator.Upload.Task.{Float64}
use deliverator.Upload.Multipart.{upload_timeout}

-- On whole numbers up to 2 ^ 53, a float64 operation with a whole result in that range is exact.
pub record IsExact {F : Type 0} (fl : Float64 F) : Type 0 where
  pub pow_exact :
      (a n : ℕ)
      → a ^ n ≤ 2 ^ 53
      → fl.pow_f (fl.of_int64 (pos a)) (fl.of_int64 (pos n)) ≡ fl.of_int64 (pos (a ^ n))
  pub mul_exact :
      (a b : ℕ)
      → a * b ≤ 2 ^ 53
      → fl.mul_f (fl.of_int64 (pos a)) (fl.of_int64 (pos b)) ≡ fl.of_int64 (pos (a * b))
  pub round_exact : (a : ℕ) → a ≤ 2 ^ 53 → fl.round_duration (fl.of_int64 (pos a)) ≡ pos a

one-pow : (n : ℕ) → 1 ^ n ≡ 1
one-pow zero = refl
one-pow (suc n) = rw (pow-suc, one-pow n)

le-mul_pos : (a b : ℕ) → 0 < b → a ≤ a * b
le-mul_pos a b h = grind arith

module _ {F : Type 0} (fl : Float64 F) (exact : IsExact fl) (c : Conf) where
  open exact use {pow_exact, mul_exact, round_exact}

  long-way :
      (f b n : ℕ)
      → 0 < b
      → f ^ n * b ≤ 2 ^ 53
      → fl.round_duration
          (fl.mul_f (fl.pow_f (fl.of_int64 (pos f)) (fl.of_int64 (pos n))) (fl.of_int64 (pos b)))
        ≡ pos (f ^ n * b)
  long-way f b n hb small =
      rw (pow_exact f n (omega (arith, le-mul_pos (f ^ n) b)))
        (rw (mul_exact (f ^ n) b small) (round_exact (f ^ n * b) small))

  -- For a base timeout b of at least 1 ns and a factor f of at least 1, the timeout of attempt n + 1
  -- is f ^ n * b, as long as that is at most 2 ^ 53 ns and float64 arithmetic is exact up to there.
  pub upload_timeout_exponential :
      (f b n : ℕ)
      → c.upload_timeout_factor ≡ pos f
      → c.upload_timeout ≡ pos b
      → 0 < f
      → 0 < b
      → f ^ n * b ≤ 2 ^ 53
      → upload_timeout fl c (pos (suc n)) ≡ pos (f ^ n * b)
  unfolding upload_timeout
  upload_timeout_exponential f b zero ef eb hf hb small = rw (eb, pow-zero) (ap pos (omega arith))
  upload_timeout_exponential f b (suc n) ef eb hf hb small = elim (dec_lt 1 f) [
    | yes more ↦ rw (ef, eb) (ground (arith, long-way f b (suc n)))
    | no one ↦
        let e : f ≡ 1 = omega arith in
        rw (ef, eb) (ground (arith, e, ap (λ x. x ^ suc n) e, one-pow (suc n)))
  ]
