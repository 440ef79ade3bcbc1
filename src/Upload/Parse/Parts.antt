-- ===== src/Upload/Parse/Parts.antt =====
-- The number of upload parts that parseRequest of upload/handler.go computes.
use deliverator.Base.{
  zero, suc, ℕ, ◌+◌, ◌*◌, ◌^◌, ◌≤◌, ◌<◌, ◌≡◌, ◌⊎◌, inl, inr, ap, ◌∙◌, refl, arith, String, none,
  returned,
}
use deliverator.Base.Int.{pos, max_ℤ}
use deliverator.Util.{div_ceil}
use deliverator.Util.Bounds.{div_ceil_ceiling}
use deliverator.Conf.{Conf}
use deliverator.Upload.Task.{Task}
use deliverator.Upload.Parse.{Form, size, drop_slash, parse_request}
use deliverator.Upload.Parse.Validity.{IsAddressed, parsed, parse_request-addressed}

-- The quotient rounded up, and at least 1.
at_least_one :
    (n p q : ℕ)
    → 0 < p
    → n ≤ q * p
    → q * p < n + p
    → (r : ℕ) × (max_ℤ (pos q) (pos 1) ≡ pos r)
      × (1 ≤ r)
      × (n ≤ r * p)
      × ((r ≡ 1) ⊎ (r * p < n + p))
at_least_one n p zero hp lo hi = (1, refl, omega arith, omega arith, inl refl)
at_least_one n p (suc q) hp lo hi = (suc q, ground arith, omega arith, lo, inr hi)

module _ (f : Form) {F : Type 0} (c : Conf) (t : Task F) (a : IsAddressed f) where
  -- For an addressed request whose URL has a key, a file of n bytes and a part size p of at least 1,
  -- with n + p at most 2 ^ 63, the task gets q parts, at least one: q parts of size p hold the file,
  -- and fewer would not, or q is 1. Of the task only the fields that are listed in `parsed` change.
  pub parse_request_parts :
      (key : String) (n p : ℕ)
      → drop_slash a.uri.path ≡ returned key
      → f.stat (f.post_form_value "file") ≡ size (pos n)
      → c.upload_partsize.value ≡ pos p
      → 0 < p
      → n + p ≤ 2 ^ 63
      → (q : ℕ) × (parse_request f c t ≡ returned (parsed f t a key (pos n) (pos q), none))
        × (1 ≤ q)
        × (n ≤ q * p)
        × ((q ≡ 1) ⊎ (q * p < n + p))
  parse_request_parts key n p hk hs hp pos_p fits =
      let (d, e, lo, hi) = div_ceil_ceiling n p pos_p fits in
      let (q, m, one, holds, least) = at_least_one n p d pos_p lo hi in
      (
        q,
        parse_request-addressed f c t a key (pos n) (pos d) hk hs (ap (div_ceil (pos n)) hp ∙ e)
            ∙ ap (λ parts. returned (parsed f t a key (pos n) parts, none)) m,
        one,
        holds,
        least,
      )
