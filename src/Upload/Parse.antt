-- ===== src/Upload/Parse.antt =====
-- parseRequest of upload/handler.go: the checks on a request, in their order.
pub mod Validity
pub mod Accepts
pub mod Parts
pub mod Filled
pub mod Integers
mod Examples
use Prim.Native.Char.{Char, code}
use Prim.Native.String.{◌++◌ as ◌+++◌}
use deliverator.Base.{
  ℕ, String, Bool, true, false, not, Option, none, some, Outcome, returned, panicked, ◌>>=◌, ◌==◌,
  str_eq, if◌then◌else◌,
}
use deliverator.Base.Int.{ℤ, pos, max_ℤ}
use deliverator.Util.{div_ceil}
use deliverator.Errors.{GoError, bad_request, bad_request_wrap}
use deliverator.Conf.{Conf}
use deliverator.Upload.Task.{Url, Task}

-- os.Stat: the error, or the file's size.
pub data Stat : Type 0 where
  stat_error : GoError → Stat
  size : ℤ → Stat

-- What parseRequest calls: the request's PostFormValue, url.Parse, os.Stat, and fmt's %q.
pub record Form : Type 0 where
  pub post_form_value : String → String
  pub parse_url : String → Option Url
  pub stat : String → Stat
  pub quote : String → String

-- html.EscapeString.
escape_char : ℕ → String → String
escape_char c s =
    if c == b'&'
    then "&amp;"
    else if c == b'\''
    then "&#39;"
    else if c == b'<'
    then "&lt;"
    else if c == b'>'
    then "&gt;"
    else if c == b'"'
    then "&#34;"
    else s

unfoldable pub escape_string : String → String
unfolding escape_char
escape_string String.[] = ""
escape_string (String.◌∷◌ c s) = escape_char (code c) (String.◌∷◌ c "") +++ escape_string s

-- filepath.IsAbs, on Unix.
unfoldable pub is_abs : String → Bool
is_abs String.[] = false
is_abs (String.◌∷◌ c s) = code c == b'/'

-- path[1:], which panics on the empty text. (The path of a URL with a host is empty or begins with
-- a slash, so its first character is one byte.)
unfoldable pub drop_slash : String → Outcome String
drop_slash String.[] = panicked "slice bounds out of range"
drop_slash (String.◌∷◌ c s) = returned s

-- The task as it was left, and the error if there is one.
abbrev pub Checked : Type 0 → Type 0
Checked F = Outcome (Task F × Option GoError)

-- *p, for a string pointer.
abbrev pub deref : Option String → Outcome String
deref none = panicked "nil pointer dereference"
deref (some s) = returned s

-- The error whose message ends with the text in %q of html.EscapeString.
abbrev pub about : (String → String) → String → String → GoError
about quote msg s = bad_request (msg +++ ": " +++ quote (escape_string s))

module _ {F : Type 0} where
  abbrev fail : Task F → GoError → Checked F
  fail t e = returned (t, some e)

  abbrev pass : Task F → Checked F
  pass t = returned (t, none)

  -- The next block is reached only without an error.
  infixl 6 ◌▸◌
  abbrev pub ◌▸◌ : Checked F → (Task F → Checked F) → Checked F
  returned (t, none) ▸ k = k t
  returned (t, some e) ▸ k = returned (t, some e)
  panicked m ▸ k = panicked m

  module _ (f : Form) where
    open f use {post_form_value, parse_url, stat, quote}

    unfoldable pub parse_file : Task F → Checked F
    parse_file t =
        let file = post_form_value "file" in
        if str_eq file ""
        then fail t (bad_request "missing field: file")
        else if not (is_abs file)
        then fail t (about quote "only absolute file paths are supported" file)
        else pass (record t { file = some file })

    unfoldable pub parse_uri : Task F → Checked F
    parse_uri t =
        let raw = post_form_value "uri" in
        if str_eq raw "" then fail t (bad_request "missing field: uri") else elim (parse_url raw) [
          | none ↦ fail t (about quote "unable to parse URI" raw)
          | some uri ↦
              if not (str_eq uri.scheme "s3")
              then fail t (about quote "only s3 scheme is supported" raw)
              else if str_eq uri.host ""
              then fail t (about quote "unable to parse bucket from URI" raw)
              else do
                key ← drop_slash uri.path
                pass (record t { uri = some uri; bucket = some uri.host; key = some key })
        ]

    unfoldable pub parse_slug : Task F → Checked F
    parse_slug t =
        let slug = post_form_value "slug" in
        pass (if str_eq slug "" then t else record t { slug = some slug })

    -- The size and the number of parts, at least one.
    unfoldable pub parse_size : Conf → Task F → Checked F
    parse_size c t = do
      file ← deref t.file
      elim (stat file) [
        | stat_error e ↦ fail t (bad_request_wrap e ("could not stat file: " +++ quote file))
        | size n ↦ do
          parts ← div_ceil n c.upload_partsize.value
          pass (record t { upload_size_bytes = n; upload_parts = max_ℤ parts (pos 1) })
      ]

    -- parseRequest.
    unfoldable pub parse_request : Conf → Task F → Checked F
    parse_request c t = parse_file t ▸ parse_uri ▸ parse_slug ▸ parse_size c
