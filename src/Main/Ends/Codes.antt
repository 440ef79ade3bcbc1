-- ===== src/Main/Ends/Codes.antt =====
-- The exit codes of NewS3ndConf, which main of cmd/s3nd/main.go calls.
use deliverator.Base.{
  ℕ, ◌≡◌, ◌≢◌, ◌⊎◌, inl, inr, refl, sym, ap, ◌∙◌, String, Option, none, some, str_eq, if◌then◌else◌,
  Bool-cases,
}
use deliverator.Conf.{
  Conf, Formats, Env, Flags, CommandLine, parsed, usage, malformed, Start, started, exited, ◌>>=◌,
  require, or_else, new_s3nd_conf,
}
use deliverator.Conf.Starts.{IsStartable, new_s3nd_conf-IsStartable}

-- A start that is one or the other.
pub Start-cases :
    {A : Type 0} (s : Start A)
    → ((code : ℕ) × (msg : String) × (s ≡ exited code msg)) ⊎ ((a : A) × (s ≡ started a))
Start-cases (started a) = inr (a, refl)
Start-cases (exited code msg) = inl (code, msg, refl)

exited-code :
    {A : Type 0} (j k : ℕ) (m n : String) (s : Start A) → s ≡ exited j m → s ≡ exited k n → k ≡ j
exited-code j k m n s d e = ap (λ s. elim s [ started a ↦ k | exited c x ↦ c ]) (sym e ∙ d)

pub started-ne-exited : {A : Type 0} (a : A) (k : ℕ) (m : String) → started a ≢ exited k m
started-ne-exited a k m h = cc

-- It exits with no code but this one.
pub record Code {A : Type 0} (s : Start A) (expected : ℕ) : Type 0 where
  pub of_exit : (code : ℕ) (msg : String) → s ≡ exited code msg → code ≡ expected

exited-Code : {A : Type 0} (k : ℕ) (m : String) → Code {A = A} (exited k m) k
exited-Code k m = record { of_exit = λ code msg e. exited-code k code m msg _ refl e }

started-Code : {A : Type 0} (a : A) (k : ℕ) → Code (started a) k
started-Code a k = record { of_exit = λ code msg e. absurd (started-ne-exited a code msg e) }

require-Code :
    {A B : Type 0} (o : Option A) (m : String) (k : A → Start B)
    → ((a : A) → Code (k a) 1)
    → Code (require o m >>= k) 1
require-Code none m k h = exited-Code 1 m
require-Code (some a) m k h = h a

parsed-Code :
    (f : Formats) (env : Env) (flags : Flags) (v : String)
    → Code (new_s3nd_conf f env (parsed flags) v) (if flags.version then 0 else 1)
unfolding new_s3nd_conf
parsed-Code f env flags v = elim (Bool-cases flags.version) [
  | inl asked ↦ rw asked (exited-Code 0 v)
  | inr denied ↦
      elim (Bool-cases
        (str_eq (or_else flags.endpoint_url (or_else (env "S3ND_ENDPOINT_URL") "")) "")) [
          | inl empty ↦ rw (denied, empty) (exited-Code 1 "S3ND_ENDPOINT_URL is required")
          | inr given ↦ rw (denied, given) (search (require-Code, started-Code) depth 12)
        ]
]

-- The code with which flag.Parse or NewS3ndConf exits, if one of them does.
abbrev pub code_of : CommandLine → ℕ
code_of (parsed flags) = if flags.version then 0 else 1
code_of usage = 0
code_of (malformed msg) = 2

pub new_s3nd_conf-Code :
    (f : Formats) (env : Env) (line : CommandLine) (v : String)
    → Code (new_s3nd_conf f env line v) (code_of line)
unfolding new_s3nd_conf
new_s3nd_conf-Code f env (parsed flags) v = parsed-Code f env flags v
new_s3nd_conf-Code f env usage v = exited-Code 0 "usage"
new_s3nd_conf-Code f env (malformed msg) v = exited-Code 2 msg

-- flag.Parse returns values with which NewS3ndConf finds all that it requires.
abbrev pub CanStart : Formats → Env → CommandLine → String → Type 0
CanStart f env (parsed flags) v = IsStartable f env flags v
CanStart f env usage v = ⊥
CanStart f env (malformed msg) v = ⊥

pub started-CanStart :
    (f : Formats) (env : Env) (line : CommandLine) (v : String) (c : Conf)
    → new_s3nd_conf f env line v ≡ started c
    → CanStart f env line v × (code_of line ≡ 1)
unfolding new_s3nd_conf
started-CanStart f env (parsed flags) v c e =
    let s = (new_s3nd_conf-IsStartable f env flags v).0 (c, e) in
    (s, ap (λ b. if b then 0 else 1) s.no_version)
started-CanStart f env usage v c e = absurd (started-ne-exited c 0 "usage" (sym e))
started-CanStart f env (malformed msg) v c e = absurd (started-ne-exited c 2 msg (sym e))

pub CanStart-started :
    (f : Formats) (env : Env) (line : CommandLine) (v : String)
    → CanStart f env line v
    → (c : Conf) × (new_s3nd_conf f env line v ≡ started c)
CanStart-started f env (parsed flags) v s = (new_s3nd_conf-IsStartable f env flags v).1 s
CanStart-started f env usage v s = absurd s
CanStart-started f env (malformed msg) v s = absurd s
