-- ===== src/Conf.antt =====
-- conf/conf.go: the configuration, read from the environment and the command line.
pub mod Numbers
pub mod RoundTrip
pub mod Starts
pub mod Samples
use deliverator.Base.{
  ℕ, String, Bool, true, false, Option, none, some, List, [], ◌∷◌, Outcome, str_eq, if◌then◌else◌,
}
use deliverator.Base.Int.{ℤ, pos, eq_ℤ, wrap64}
use deliverator.Util.{div_ceil}
use Numbers.{parse_int, itoa}

-- A k8sresource.Quantity: its Value() and its String().
pub record Quantity : Type 0 where
  pub value : ℤ
  pub text : String

-- S3ndConf. The pointers are set by NewS3ndConf and never nil; durations are in nanoseconds.
pub record Conf : Type 0 where
  pub host : String
  pub port : ℤ
  pub endpoint_url : String
  pub upload_max_parallel : ℤ
  pub upload_timeout : ℤ
  pub upload_timeout_factor : ℤ
  pub queue_timeout : ℤ
  pub upload_tries : ℤ
  pub upload_partsize : Quantity
  pub upload_bwlimit : Quantity
  pub upload_write_buffer_size : Quantity
  pub version : String

-- What the code calls to print values and to parse them: Duration.String and time.ParseDuration,
-- and resource.ParseQuantity.
pub record Formats : Type 0 where
  pub duration_text : ℤ → String
  pub parse_duration : String → Option ℤ
  pub parse_quantity : String → Option Quantity

-- ToMap, in the order of its literal.
unfoldable pub to_map : Formats → Conf → List (String × String)
unfolding itoa
to_map f c =
    ("S3ND_ENDPOINT_URL", c.endpoint_url)
    ∷ ("S3ND_HOST", c.host)
    ∷ ("S3ND_PORT", itoa c.port)
    ∷ ("S3ND_QUEUE_TIMEOUT", f.duration_text c.queue_timeout)
    ∷ ("S3ND_UPLOAD_BWLIMIT", c.upload_bwlimit.text)
    ∷ ("S3ND_UPLOAD_MAX_PARALLEL", itoa c.upload_max_parallel)
    ∷ ("S3ND_UPLOAD_PARTSIZE", c.upload_partsize.text)
    ∷ ("S3ND_UPLOAD_TIMEOUT", f.duration_text c.upload_timeout)
    ∷ ("S3ND_UPLOAD_TIMEOUT_FACTOR", itoa c.upload_timeout_factor)
    ∷ ("S3ND_UPLOAD_TRIES", itoa c.upload_tries)
    ∷ ("S3ND_UPLOAD_WRITE_BUFFER_SIZE", c.upload_write_buffer_size.text)
    ∷ []

-- UploadBwlimitBytes: bits per second to bytes per second, rounded up.
unfoldable pub upload_bwlimit_bytes : Conf → Outcome ℤ
upload_bwlimit_bytes c = div_ceil c.upload_bwlimit.value (pos 8)

-- os.LookupEnv.
abbrev pub Env : Type 0
Env = String → Option String

-- The values that flag.Parse found on the command line; `none` where a flag was not given.
pub record Flags : Type 0 where
  pub host : Option String
  pub port : Option ℤ
  pub endpoint_url : Option String
  pub upload_max_parallel : Option ℤ
  pub upload_timeout : Option String
  pub upload_timeout_factor : Option ℤ
  pub queue_timeout : Option String
  pub upload_tries : Option ℤ
  pub upload_partsize : Option String
  pub upload_bwlimit : Option String
  pub upload_write_buffer_size : Option String
  pub version : Bool

-- `exited code message` is os.Exit(code), after the message.
pub data Start {ℓ} (A : Type ℓ) : Type ℓ where
  started : A → Start A
  exited : ℕ → String → Start A

infixl 5 ◌>>=◌
abbrev pub ◌>>=◌ {ℓ κ} : {A : Type ℓ} {B : Type κ} → Start A → (A → Start B) → Start B
started a >>= f = f a
exited code msg >>= f = exited code msg

abbrev pub or_else {ℓ} : {A : Type ℓ} → Option A → A → A
or_else none d = d
or_else (some a) d = a

-- os.Getenv.
abbrev getenv : Env → String → String
getenv env key = or_else (env key) ""

-- A numeric default: the variable read by strconv with its error ignored, or d where that is 0.
unfoldable pub int_default : Env → String → ℤ → ℤ
unfolding parse_int
int_default env key d = let n = parse_int (getenv env key) in if eq_ℤ n (pos 0) then d else n

-- A default kept as text: the variable, or d where it is empty.
unfoldable pub text_default : Env → String → String → String
text_default env key d = let s = getenv env key in if str_eq s "" then d else s

-- A parse whose failure ends the process.
abbrev pub require {ℓ} : {A : Type ℓ} → Option A → String → Start A
require none msg = exited 1 msg
require (some a) msg = started a

-- What flag.Parse makes of the command line: the values, the usage that -h asks for, or an argument
-- that it cannot read.
pub data CommandLine : Type 0 where
  parsed : Flags → CommandLine
  usage : CommandLine
  malformed : String → CommandLine

-- NewS3ndConf, from the return of flag.Parse on.
unfoldable pub configure : Formats → Env → Flags → String → Start Conf
unfolding int_default text_default
configure f env flags version =
    let endpoint_url = or_else flags.endpoint_url (getenv env "S3ND_ENDPOINT_URL") in
    if flags.version
    then exited 0 version
    else if str_eq endpoint_url ""
    then exited 1 "S3ND_ENDPOINT_URL is required"
    else do
      upload_timeout ←
          require
            (f.parse_duration
              (or_else flags.upload_timeout (text_default env "S3ND_UPLOAD_TIMEOUT" "10s")))
            "S3ND_UPLOAD_TIMEOUT is invalid"
      queue_timeout ←
          require
            (f.parse_duration
              (or_else flags.queue_timeout (text_default env "S3ND_QUEUE_TIMEOUT" "10s")))
            "S3ND_QUEUE_TIMEOUT is invalid"
      upload_partsize ←
          require
            (f.parse_quantity
              (or_else flags.upload_partsize (text_default env "S3ND_UPLOAD_PARTSIZE" "5Mi")))
            "S3ND_UPLOAD_PARTSIZE is invalid"
      upload_bwlimit ←
          require
            (f.parse_quantity
              (or_else flags.upload_bwlimit (text_default env "S3ND_UPLOAD_BWLIMIT" "0")))
            "S3ND_UPLOAD_BWLIMIT is invalid"
      upload_write_buffer_size ←
          require
            (f.parse_quantity (
              or_else flags.upload_write_buffer_size
                (text_default env "S3ND_UPLOAD_WRITE_BUFFER_SIZE" "64Ki")))
            "S3ND_UPLOAD_WRITE_BUFFER_SIZE is invalid"
      started (record {
        host = or_else flags.host (or_else (env "S3ND_HOST") "localhost");
        port = or_else flags.port (int_default env "S3ND_PORT" (pos 15555));
        endpoint_url = endpoint_url;
        upload_max_parallel =
            or_else flags.upload_max_parallel
              (int_default env "S3ND_UPLOAD_MAX_PARALLEL" (pos 100));
        upload_timeout = upload_timeout;
        upload_timeout_factor =
            or_else flags.upload_timeout_factor
              (int_default env "S3ND_UPLOAD_TIMEOUT_FACTOR" (pos 1));
        queue_timeout = queue_timeout;
        upload_tries = or_else flags.upload_tries (int_default env "S3ND_UPLOAD_TRIES" (pos 1));
        upload_partsize = upload_partsize;
        upload_bwlimit = upload_bwlimit;
        upload_write_buffer_size = upload_write_buffer_size;
        version = version;
      })

-- NewS3ndConf. flag.Parse itself ends the process where it does not return.
unfoldable pub new_s3nd_conf : Formats → Env → CommandLine → String → Start Conf
unfolding configure
new_s3nd_conf f env (parsed flags) version = configure f env flags version
new_s3nd_conf f env usage version = exited 0 "usage"
new_s3nd_conf f env (malformed msg) version = exited 2 msg
