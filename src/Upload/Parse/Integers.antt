-- ===== src/Upload/Parse/Integers.antt =====
-- The integers of a task after parseRequest of upload/handler.go.
use deliverator.Base.{
  Holds, returns, panics, bind-Holds, any-Holds, if-Holds, ◌≡◌, refl, subst, String, not, Option,
  none, some, Bool-cases, inl, inr, ◌⊎◌, Option-cases, str_eq,
}
use deliverator.Base.Int.{ℤ, pos, eq_ℤ}
use deliverator.Errors.{GoError}
use deliverator.Util.{rounded, div_ceil}
use deliverator.Conf.{Conf}
use deliverator.Upload.Task.{Task}
use deliverator.Upload.Task.Integers.{Fits, wrap64-Fits, max_ℤ-Fits, IsInt64, same-IsInt64}
use deliverator.Upload.Parse.{
  Stat, stat_error, size, Form, is_abs, drop_slash, Checked, deref, ◌▸◌, parse_file, parse_uri,
  parse_slug, parse_size, parse_request,
}

-- What os.Stat answers: the size of a file is an int64.
abbrev pub IsSize : Stat → Type 0
IsSize (stat_error e) = Unit
IsSize (size n) = Fits n

div_ceil-Fits : (a b : ℤ) → Holds Fits (div_ceil a b)
unfolding div_ceil rounded
div_ceil-Fits a b = elim (Bool-cases (eq_ℤ b (pos 0))) [
  | inl z ↦ rw (div_ceil, z) panics
  | inr z ↦ rw (div_ceil, z) (returns (wrap64-Fits _))
]

Stat-cases : (s : Stat) → ((e : GoError) × (s ≡ stat_error e)) ⊎ ((n : ℤ) × (s ≡ size n))
Stat-cases (stat_error e) = inl (e, refl)
Stat-cases (size n) = inr (n, refl)

module _ {F : Type 0} where
  abbrev pub Parsed : Task F × Option GoError → Type 0
  Parsed x = IsInt64 x.0

  then-Parsed :
      {m : Checked F} {k : Task F → Checked F}
      → Holds Parsed m
      → ((t : Task F) → IsInt64 t → Holds Parsed (k t))
      → Holds Parsed (m ▸ k)
  then-Parsed (returns {a = (t, none)} i) h = h t i
  then-Parsed (returns {a = (t, some e)} i) h = returns i
  then-Parsed panics h = panics

  module _ (f : Form) (sizes : (file : String) → IsSize (f.stat file)) where
    parse_file-Parsed : (t : Task F) → IsInt64 t → Holds Parsed (parse_file f t)
    unfolding parse_file
    parse_file-Parsed t i =
        let file = f.post_form_value "file" in
        if-Holds (str_eq file "") (returns i)
          (if-Holds (not (is_abs file)) (returns i) (returns (same-IsInt64 t _ refl i)))

    parse_uri-Parsed : (t : Task F) → IsInt64 t → Holds Parsed (parse_uri f t)
    unfolding parse_uri
    parse_uri-Parsed t i =
        let raw = f.post_form_value "uri" in
        if-Holds (str_eq raw "") (returns i) (elim (Option-cases (f.parse_url raw)) [
          | inl e ↦ rw e (returns i)
          | inr (uri, e) ↦ rw e (
              if-Holds (not (str_eq uri.scheme "s3")) (returns i) (
                if-Holds (str_eq uri.host "") (returns i) (
                  bind-Holds (any-Holds (drop_slash uri.path))
                    (λ key u. returns (same-IsInt64 t _ refl i)))))
        ])

    parse_slug-Parsed : (t : Task F) → IsInt64 t → Holds Parsed (parse_slug f t)
    unfolding parse_slug
    parse_slug-Parsed t i = elim (Bool-cases (str_eq (f.post_form_value "slug") "")) [
      | inl e ↦ rw e (returns i)
      | inr e ↦ rw e (returns (same-IsInt64 t _ refl i))
    ]

    parse_size-Parsed : (c : Conf) (t : Task F) → IsInt64 t → Holds Parsed (parse_size f c t)
    unfolding parse_size
    parse_size-Parsed c t i = bind-Holds (any-Holds (deref t.file)) (λ file u.
        elim (Stat-cases (f.stat file)) [
          | inl (e, q) ↦ rw q (returns i)
          | inr (n, q) ↦ rw q (
              bind-Holds (div_ceil-Fits n c.upload_partsize.value) (λ parts fits. returns (record {
                attempts = i.attempts;
                size = subst IsSize q (sizes file);
                parts = max_ℤ-Fits parts fits;
              })))
        ])

    pub parse_request-Parsed :
        (c : Conf) (t : Task F) → IsInt64 t → Holds Parsed (parse_request f c t)
    unfolding parse_request
    parse_request-Parsed c t i =
        then-Parsed
          (then-Parsed (then-Parsed (parse_file-Parsed t i) parse_uri-Parsed) parse_slug-Parsed)
          (parse_size-Parsed c)
