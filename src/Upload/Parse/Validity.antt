-- ===== src/Upload/Parse/Validity.antt =====
-- Which requests parseRequest of upload/handler.go accepts, refuses, and crashes on.
use deliverator.Base.{
  ap, ◌∙◌, ◌≡◌, ◌≢◌, ◌⊎◌, inl, inr, refl, arith, String, true, none, some, returned, panicked,
  ◌>>=◌, str_eq, eq_iff, if◌then◌else◌,
}
use deliverator.Base.Int.{ℤ, pos, max_ℤ}
use deliverator.Util.{div_ceil}
use deliverator.Errors.{GoError, as_bad_request}
use deliverator.Conf.{Conf}
use deliverator.Upload.Task.{Url, Task}
use deliverator.Upload.Parse.{
  Form, size, is_abs, drop_slash, Checked, ◌▸◌, parse_file, parse_uri, parse_slug, parse_size,
  parse_request,
}

-- A sequence of blocks goes on from the first, or ends with it.
pub ▸-cases :
    {F : Type 0} (m : Checked F) (k : Task F → Checked F)
    → ((v : Task F) × (m ≡ returned (v, none)) × ((m ▸ k) ≡ k v))
      ⊎ (((v : Task F) → m ≢ returned (v, none)) × ((m ▸ k) ≡ m))
▸-cases (returned (v, none)) k = inl (v, refl, refl)
▸-cases (returned (v, some e)) k = inr (λ u h. cc, refl)
▸-cases (panicked msg) k = inr (λ u h. cc, refl)

-- Every error of the sequence is one that satisfies P, if that holds of the two parts.
▸-error :
    {F : Type 0} (P : GoError → Type 0) (m : Checked F) (k : Task F → Checked F)
    → ((u : Task F) (e : GoError) → m ≡ returned (u, some e) → P e)
    → ((v u : Task F) (e : GoError) → k v ≡ returned (u, some e) → P e)
    → (u : Task F) (e : GoError) → (m ▸ k) ≡ returned (u, some e)
    → P e
▸-error P (returned (v, none)) k hm hk u e h = hk v u e h
▸-error P (returned (v, some x)) k hm hk u e h = hm u e h
▸-error P (panicked msg) k hm hk u e h = cc

module _ (f : Form) where
  open f use {post_form_value, parse_url, stat}

  -- An absolute file, and an s3 URL with a bucket.
  pub record IsAddressed : Type 0 where
    pub uri : Url
    pub file_given : post_form_value "file" ≢ ""
    pub absolute : is_abs (post_form_value "file") ≡ true
    pub uri_given : post_form_value "uri" ≢ ""
    pub parses : parse_url (post_form_value "uri") ≡ some uri
    pub scheme : uri.scheme ≡ "s3"
    pub bucket : uri.host ≢ ""

  -- The task of an addressed request, with the key, the size and the number of parts.
  abbrev pub parsed : {F : Type 0} → Task F → IsAddressed → String → ℤ → ℤ → Task F
  parsed t a key n parts = record t {
    file = some (post_form_value "file");
    uri = some a.uri;
    bucket = some a.uri.host;
    key = some key;
    slug = if str_eq (post_form_value "slug") "" then t.slug else some (post_form_value "slug");
    upload_size_bytes = n;
    upload_parts = parts;
  }

  module _ {F : Type 0} (c : Conf) (t : Task F) where
    pub parse_file-given :
        post_form_value "file" ≢ ""
        → is_abs (post_form_value "file") ≡ true
        → parse_file f t ≡ returned (record t { file = some (post_form_value "file") }, none)
    unfolding parse_file
    parse_file-given g a = ground (arith, eq_iff (post_form_value "file") "")

    pub parse_uri-given :
        (a : IsAddressed)
        → parse_uri f t ≡ (
            drop_slash a.uri.path >>= λ key.
            returned
              (record t { uri = some a.uri; bucket = some a.uri.host; key = some key }, none))
    unfolding parse_uri
    parse_uri-given a = ground (
      arith,
      eq_iff (post_form_value "uri") "",
      eq_iff a.uri.host "",
      eq_iff a.uri.scheme "s3",
      a.parses,
      a.scheme,
    )

    parse_file-error :
        (u : Task F) (e : GoError) → parse_file f t ≡ returned (u, some e) → as_bad_request e ≡ true
    unfolding parse_file as_bad_request
    parse_file-error u e h = ground arith

    parse_uri-error :
        (u : Task F) (e : GoError) → parse_uri f t ≡ returned (u, some e) → as_bad_request e ≡ true
    unfolding parse_uri as_bad_request
    parse_uri-error u e h = ground arith

    parse_uri-keyed :
        (a : IsAddressed) (key : String)
        → drop_slash a.uri.path ≡ returned key
        → parse_uri f t
          ≡ returned (record t { uri = some a.uri; bucket = some a.uri.host; key = some key }, none)
    parse_uri-keyed a key h = rw (parse_uri-given a, h)

    parse_uri-pathless :
        (a : IsAddressed) (msg : String)
        → drop_slash a.uri.path ≡ panicked msg
        → parse_uri f t ≡ panicked msg
    parse_uri-pathless a msg h = rw (parse_uri-given a, h)

    parse_slug-value :
        parse_slug f t
        ≡ returned (
          record t {
            slug =
                if str_eq (post_form_value "slug") ""
                then t.slug
                else some (post_form_value "slug");
          },
          none,
        )
    unfolding parse_slug
    parse_slug-value = ground arith

    parse_slug-error :
        (u : Task F) (e : GoError) → parse_slug f t ≡ returned (u, some e) → as_bad_request e ≡ true
    unfolding parse_slug
    parse_slug-error u e h = cc

    parse_size-error :
        (u : Task F) (e : GoError)
        → parse_size f c t ≡ returned (u, some e)
        → as_bad_request e ≡ true
    unfolding parse_size as_bad_request
    parse_size-error u e h = ground arith

  module _ {F : Type 0} (c : Conf) where
    -- Whatever the request, an error of parseRequest is a BadRequestError.
    pub parse_request-BadRequest :
        (t u : Task F) (e : GoError)
        → parse_request f c t ≡ returned (u, some e)
        → as_bad_request e ≡ true
    unfolding parse_request
    parse_request-BadRequest t =
        ▸-error (λ e. as_bad_request e ≡ true) _ _
          (▸-error (λ e. as_bad_request e ≡ true) _ _
            (▸-error (λ e. as_bad_request e ≡ true) _ _ (parse_file-error c t) (parse_uri-error c))
            (parse_slug-error c))
          (parse_size-error c)

    -- An addressed request whose URL has a key comes to the size.
    pub parse_request-to_size :
        (t : Task F) (a : IsAddressed) (key : String)
        → drop_slash a.uri.path ≡ returned key
        → parse_request f c t ≡ parse_size f c (parsed t a key t.upload_size_bytes t.upload_parts)
    unfolding parse_request
    parse_request-to_size t a key hk =
        let filed : Task F = record t { file = some (post_form_value "file") } in
        let located : Task F = record filed {
          uri = some a.uri;
          bucket = some a.uri.host;
          key = some key;
        } in
        ap (λ m. m ▸ parse_uri f ▸ parse_slug f ▸ parse_size f c)
          (parse_file-given c t a.file_given a.absolute)
        ∙ ap (λ m. m ▸ parse_slug f ▸ parse_size f c) (parse_uri-keyed c filed a key hk)
        ∙ ap (λ m. m ▸ parse_size f c) (parse_slug-value c located)

    -- A URL without a path makes it panic.
    pub parse_request-pathless :
        (t : Task F) (a : IsAddressed) (msg : String)
        → drop_slash a.uri.path ≡ panicked msg
        → parse_request f c t ≡ panicked msg
    unfolding parse_request
    parse_request-pathless t a msg h =
        let filed : Task F = record t { file = some (post_form_value "file") } in
        ap (λ m. m ▸ parse_uri f ▸ parse_slug f ▸ parse_size f c)
          (parse_file-given c t a.file_given a.absolute)
        ∙ ap (λ m. m ▸ parse_slug f ▸ parse_size f c) (parse_uri-pathless c filed a msg h)

    -- The result for an addressed request, if the three steps that are left succeed.
    pub parse_request-addressed :
        (t : Task F) (a : IsAddressed) (key : String) (n parts : ℤ)
        → drop_slash a.uri.path ≡ returned key
        → stat (post_form_value "file") ≡ size n
        → div_ceil n c.upload_partsize.value ≡ returned parts
        → parse_request f c t ≡ returned (parsed t a key n (max_ℤ parts (pos 1)), none)
    unfolding parse_size
    parse_request-addressed t a key n parts hk hs hp =
        parse_request-to_size t a key hk ∙ (rw (hs, hp))
