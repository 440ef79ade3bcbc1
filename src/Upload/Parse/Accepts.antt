-- ===== src/Upload/Parse/Accepts.antt =====
-- parseRequest of upload/handler.go: exactly which requests it accepts, and on which it panics.
use deliverator.Base.{
  subst, ◌≡◌, ◌≢◌, ◌↔◌, ◌⊎◌, inl, inr, refl, String, true, false, none, some, returned, panicked,
  str_eq, eq_iff, Bool-cases, Option-cases,
}
use deliverator.Base.Int.{ℤ, pos}
use deliverator.Util.Bounds.{div_ceil-returned}
use deliverator.Errors.{GoError}
use deliverator.Conf.{Conf}
use deliverator.Upload.Task.{Url, Task}
use deliverator.Upload.Parse.{
  Form, Stat, size, stat_error, is_abs, drop_slash, Checked, ◌▸◌, parse_file, parse_uri, parse_size,
  parse_request,
}
use deliverator.Upload.Parse.Validity.{
  IsAddressed, parse_file-given, parse_request-addressed, parse_request-to_size,
  parse_request-pathless,
}

text-cases : (s u : String) → ((str_eq s u ≡ true) × (s ≡ u)) ⊎ ((str_eq s u ≡ false) × (s ≢ u))
text-cases s u = elim (Bool-cases (str_eq s u)) [
  | inl e ↦ inl (e, (eq_iff s u).0 e)
  | inr e ↦ inr (e, λ h. cc ((eq_iff s u).1 h))
]

-- A block that stops with an error.
abbrev pub IsRefused : {F : Type 0} → Checked F → Type 0
IsRefused (returned (u, none)) = ⊥
IsRefused (returned (u, some e)) = Unit
IsRefused (panicked m) = ⊥

IsRefused-▸ :
    {F : Type 0} (m : Checked F) (k : Task F → Checked F) → IsRefused m → IsRefused (m ▸ k)
IsRefused-▸ (returned (u, none)) k h = elim h [ ]
IsRefused-▸ (returned (u, some e)) k h = tt
IsRefused-▸ (panicked m) k h = elim h [ ]

not-refused-accepts :
    {F : Type 0} (m : Checked F) (u : Task F) → IsRefused m → m ≢ returned (u, none)
not-refused-accepts m u r h = subst IsRefused h r

not-refused-panics : {F : Type 0} (m : Checked F) (s : String) → IsRefused m → m ≢ panicked s
not-refused-panics m s r h = subst IsRefused h r

pub path-cases :
    (s : String)
    → ((s ≡ "") × (drop_slash s ≡ panicked "slice bounds out of range"))
      ⊎ ((s ≢ "") × ((key : String) × (drop_slash s ≡ returned key)))
unfolding drop_slash
path-cases String.[] = inl (refl, refl)
path-cases (String.◌∷◌ c s) = inr (λ h. cc, (s, refl))

Stat-cases : (s : Stat) → ((n : ℤ) × (s ≡ size n)) ⊎ ((e : GoError) × (s ≡ stat_error e))
Stat-cases (size n) = inl (n, refl)
Stat-cases (stat_error e) = inr (e, refl)

module _ (f : Form) where
  open f use {post_form_value, parse_url, stat}

  abbrev IsFile : Type 0
  IsFile = (post_form_value "file" ≢ "") × (is_abs (post_form_value "file") ≡ true)

  module _ {F : Type 0} (c : Conf) (t : Task F) where
    file-cases : IsFile ⊎ IsRefused (parse_file f t)
    unfolding parse_file
    file-cases = elim (text-cases (post_form_value "file") "") [
      | inl (e, _) ↦ inr (rw e tt)
      | inr (e, ne) ↦ elim (Bool-cases (is_abs (post_form_value "file"))) [
        | inl a ↦ inl (ne, a)
        | inr a ↦ inr (rw (e, a) tt)
      ]
    ]

    -- The URL of an addressed request.
    abbrev IsUri : Url → Type 0
    IsUri uri =
        (post_form_value "uri" ≢ "")
        × (parse_url (post_form_value "uri") ≡ some uri)
        × (uri.scheme ≡ "s3")
        × (uri.host ≢ "")

    IsUri-cases : ((uri : Url) × IsUri uri) ⊎ IsRefused (parse_uri f t)
    unfolding parse_uri
    IsUri-cases = elim (text-cases (post_form_value "uri") "") [
      | inl (e, _) ↦ inr (rw e tt)
      | inr (e, ne) ↦ elim (Option-cases (parse_url (post_form_value "uri"))) [
        | inl bad ↦ inr (rw (e, bad) tt)
        | inr (uri, ok) ↦ elim (text-cases uri.scheme "s3") [
          | inr (s, _) ↦ inr (rw (e, ok, s) tt)
          | inl (s, s3) ↦ elim (text-cases uri.host "") [
            | inl (h, _) ↦ inr (rw (e, ok, s, h) tt)
            | inr (h, host) ↦ inl (uri, (ne, ok, s3, host))
          ]
        ]
      ]
    ]

  module _ {F : Type 0} (c : Conf) (t : Task F) (sized : c.upload_partsize.value ≢ pos 0) where
    abbrev filed : Task F
    filed = record t { file = some (post_form_value "file") }

    addressed-cases : IsAddressed f ⊎ IsRefused (parse_request f c t)
    unfolding parse_request
    addressed-cases = elim (file-cases c t) [
      | inr r ↦ inr (IsRefused-▸ _ _ (IsRefused-▸ _ _ (IsRefused-▸ _ _ r)))
      | inl (g, a) ↦ elim (IsUri-cases c filed) [
        | inr r ↦ inr (rw (parse_file-given f c t g a) (IsRefused-▸ _ _ (IsRefused-▸ _ _ r)))
        | inl (uri, u) ↦ inl (record {
          uri = uri;
          file_given = g;
          absolute = a;
          uri_given = u.0;
          parses = u.1;
          scheme = u.2;
          bucket = u.3;
        })
      ]
    ]

    missing-IsRefused :
        (a : IsAddressed f) (key : String) (e : GoError)
        → drop_slash a.uri.path ≡ returned key
        → stat (post_form_value "file") ≡ stat_error e
        → IsRefused (parse_request f c t)
    unfolding parse_size
    missing-IsRefused a key e hk hs = rw (parse_request-to_size f c t a key hk) (rw hs tt)

    -- What becomes of an addressed request.
    addressed-outcome :
        (a : IsAddressed f)
        → ((a.uri.path ≡ "") × (parse_request f c t ≡ panicked "slice bounds out of range"))
          ⊎ ((a.uri.path ≢ "")
              × (((n : ℤ) × (stat (post_form_value "file") ≡ size n)
                    × ((u : Task F) × (parse_request f c t ≡ returned (u, none))))
                  ⊎ (((e : GoError) × (stat (post_form_value "file") ≡ stat_error e))
                      × IsRefused (parse_request f c t))))
    addressed-outcome a = elim (path-cases a.uri.path) [
      | inl (e, d) ↦ inl (e, parse_request-pathless f c t a _ d)
      | inr (ne, (key, d)) ↦ inr (
        ne,
        elim (Stat-cases (stat (post_form_value "file"))) [
          | inl (n, s) ↦
              inl (
                n,
                s,
                (_, parse_request-addressed f c t a key n _ d s (div_ceil-returned n _ sized)),
              )
          | inr (e, s) ↦ inr ((e, s), missing-IsRefused a key e d s)
        ],
      )
    ]

    -- For a part size other than 0, parseRequest succeeds exactly on the requests that name an
    -- absolute file that os.Stat finds, and an s3 URL with a bucket and a path.
    pub parse_request-accepts : ((u : Task F) × (parse_request f c t ≡ returned (u, none))) ↔ (
        (a : IsAddressed f) × (a.uri.path ≢ "")
        × ((n : ℤ) × (stat (post_form_value "file") ≡ size n)))
    parse_request-accepts = (
      λ (u, h). elim addressed-cases [
        | inr r ↦ absurd (not-refused-accepts _ u r h)
        | inl a ↦ elim (addressed-outcome a) [
          | inl (e, p) ↦ cc
          | inr (ne, inl (n, s, x)) ↦ (a, ne, (n, s))
          | inr (ne, inr (m, r)) ↦ absurd (not-refused-accepts _ u r h)
        ]
      ],
      λ (a, ne, (n, s)). elim (addressed-outcome a) [
        | inl (e, p) ↦ absurd (ne e)
        | inr (_, inl (m, s', x)) ↦ x
        | inr (_, inr ((e, s'), r)) ↦ cc
      ],
    )

    -- For a part size other than 0, parseRequest panics exactly on the requests that name an
    -- absolute file and an s3 URL with a bucket and no path, such as s3://bucket.
    pub parse_request-panics :
        ((msg : String) × (parse_request f c t ≡ panicked msg))
        ↔ ((a : IsAddressed f) × (a.uri.path ≡ ""))
    parse_request-panics = (
      λ (msg, h). elim addressed-cases [
        | inr r ↦ absurd (not-refused-panics _ msg r h)
        | inl a ↦ elim (addressed-outcome a) [
          | inl (e, p) ↦ (a, e)
          | inr (ne, inl (n, s, (u, x))) ↦ cc
          | inr (ne, inr (m, r)) ↦ absurd (not-refused-panics _ msg r h)
        ]
      ],
      λ (a, e). elim (addressed-outcome a) [ inl (_, p) ↦ (_, p) | inr (ne, rest) ↦ absurd (ne e) ],
    )
