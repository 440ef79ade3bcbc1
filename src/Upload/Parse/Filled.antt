-- ===== src/Upload/Parse/Filled.antt =====
-- What the task of an accepted request has, after parseRequest of upload/handler.go.
use deliverator.Base.{
  ◌≡◌, ◌≢◌, ◌∙◌, refl, sym, subst, inl, inr, String, none, some, returned, returned-injective,
}
use deliverator.Base.Int.{ℤ, pos, max_ℤ}
use deliverator.Util.{rounded}
use deliverator.Util.Bounds.{div_ceil-returned}
use deliverator.Conf.{Conf}
use deliverator.Upload.Task.{Task}
use deliverator.Upload.Parse.{Form, parse_request}
use deliverator.Upload.Parse.Validity.{IsAddressed, parsed, parse_request-addressed}
use deliverator.Upload.Parse.Accepts.{path-cases, parse_request-accepts}

-- A task whose file, bucket and key are set.
pub record IsFilled {F : Type 0} (t : Task F) : Type 0 where
  pub file : String
  pub bucket : String
  pub key : String
  pub has_file : t.file ≡ some file
  pub has_bucket : t.bucket ≡ some bucket
  pub has_key : t.key ≡ some key

module _ (f : Form) {F : Type 0} (c : Conf) (t : Task F)
    (sized : c.upload_partsize.value ≢ pos 0) where
  parsed-IsFilled :
      (a : IsAddressed f) (key : String) (n parts : ℤ) → IsFilled (parsed f t a key n parts)
  parsed-IsFilled a key n parts = record {
    file = f.post_form_value "file";
    bucket = a.uri.host;
    key = key;
    has_file = refl;
    has_bucket = refl;
    has_key = refl;
  }

  pub parse_request-IsFilled : (u : Task F) → parse_request f c t ≡ returned (u, none) → IsFilled u
  parse_request-IsFilled u h =
      let (a, ne, (n, s)) = (parse_request-accepts f c t sized).0 (u, h) in
      elim (path-cases a.uri.path) [
        | inl (e, p) ↦ absurd (ne e)
        | inr (_, (key, d)) ↦
            let made =
              parse_request-addressed f c t a key n _ d s
                (div_ceil-returned n c.upload_partsize.value sized) in
            subst (λ p. IsFilled p.0) (returned-injective (sym made ∙ h))
              (parsed-IsFilled a key n (max_ℤ (rounded n c.upload_partsize.value) (pos 1)))
      ]
