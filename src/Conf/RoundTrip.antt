-- ===== src/Conf/RoundTrip.antt =====
-- ToMap against NewS3ndConf of conf/conf.go: the reported configuration is one to start with again.
use deliverator.Base.{
  ◌^◌, ◌≤◌, ◌<◌, ◌≡◌, ◌≢◌, refl, arith, String, false, Option, none, some, List, [], ◌∷◌, str_eq,
  if◌then◌else◌, eq_iff,
}
use deliverator.Base.Int.{ℤ, pos, pos_part, neg_part, eq_ℤ}
use deliverator.Conf.{
  Conf, Formats, to_map, Env, Flags, parsed, started, int_default, text_default, new_s3nd_conf,
}
use deliverator.Conf.Numbers.{itoa}
use deliverator.Conf.Numbers.RoundTrip.{parse_int-itoa}

-- The environment with the variables of a list.
abbrev pub env_of : List (String × String) → Env
env_of [] key = none
env_of ((k, v) ∷ vs) key = if str_eq k key then some v else env_of vs key

-- No argument on the command line.
abbrev pub no_flags : Flags
no_flags = record {
  host = none;
  port = none;
  endpoint_url = none;
  upload_max_parallel = none;
  upload_timeout = none;
  upload_timeout_factor = none;
  queue_timeout = none;
  upload_tries = none;
  upload_partsize = none;
  upload_bwlimit = none;
  upload_write_buffer_size = none;
  version = false;
}

-- An int64 that is not 0, which stands for the default.
pub record IsGiven (z : ℤ) : Type 0 where
  pub low : neg_part z ≤ 2 ^ 63
  pub high : pos_part z < 2 ^ 63
  pub not_zero : eq_ℤ z (pos 0) ≡ false

-- A duration or quantity whose text is not empty, and is read back as it was.
pub record IsReadable {A : Type 0} (read : String → Option A) (text : String) (a : A) : Type 0 where
  pub not_empty : text ≢ ""
  pub reads : read text ≡ some a

-- The values of a configuration that can be reported and read.
pub record IsReportable (f : Formats) (c : Conf) : Type 0 where
  pub endpoint_url : c.endpoint_url ≢ ""
  pub port : IsGiven c.port
  pub upload_max_parallel : IsGiven c.upload_max_parallel
  pub upload_timeout_factor : IsGiven c.upload_timeout_factor
  pub upload_tries : IsGiven c.upload_tries
  pub upload_timeout :
      IsReadable f.parse_duration (f.duration_text c.upload_timeout) c.upload_timeout
  pub queue_timeout : IsReadable f.parse_duration (f.duration_text c.queue_timeout) c.queue_timeout
  pub upload_partsize : IsReadable f.parse_quantity c.upload_partsize.text c.upload_partsize
  pub upload_bwlimit : IsReadable f.parse_quantity c.upload_bwlimit.text c.upload_bwlimit
  pub upload_write_buffer_size :
      IsReadable f.parse_quantity c.upload_write_buffer_size.text c.upload_write_buffer_size

int_default-itoa :
    (env : Env) (key : String) (d z : ℤ)
    → IsGiven z
    → env key ≡ some (itoa z)
    → int_default env key d ≡ z
unfolding int_default
int_default-itoa env key d z g e = rw (e, parse_int-itoa z g.low g.high, g.not_zero)

text_default-given :
    (env : Env) (key d s : String) → s ≢ "" → env key ≡ some s → text_default env key d ≡ s
unfolding text_default
text_default-given env key d s ne e = ground (arith, eq_iff s "")

empty-test : (s : String) → s ≢ "" → str_eq s "" ≡ false
empty-test s ne = ground (arith, eq_iff s "")

-- A configuration whose values can be reported and read, started anew from the variables that ToMap
-- reports for it, is the same: the numbers of its fields that are not 0, its texts, its durations
-- and its quantities.
pub new_s3nd_conf-to_map :
    (f : Formats) (c : Conf)
    → IsReportable f c
    → new_s3nd_conf f (env_of (to_map f c)) (parsed no_flags) c.version ≡ started c
unfolding new_s3nd_conf to_map
new_s3nd_conf-to_map f c r =
    let env : Env = env_of (to_map f c) in
    rw (
      empty-test c.endpoint_url r.endpoint_url,
      text_default-given env "S3ND_UPLOAD_TIMEOUT" "10s" (f.duration_text c.upload_timeout)
          r.upload_timeout.not_empty refl,
      r.upload_timeout.reads,
      text_default-given env "S3ND_QUEUE_TIMEOUT" "10s" (f.duration_text c.queue_timeout)
          r.queue_timeout.not_empty refl,
      r.queue_timeout.reads,
      text_default-given env "S3ND_UPLOAD_PARTSIZE" "5Mi" c.upload_partsize.text
          r.upload_partsize.not_empty refl,
      r.upload_partsize.reads,
      text_default-given env "S3ND_UPLOAD_BWLIMIT" "0" c.upload_bwlimit.text
          r.upload_bwlimit.not_empty refl,
      r.upload_bwlimit.reads,
      text_default-given env "S3ND_UPLOAD_WRITE_BUFFER_SIZE" "64Ki" c.upload_write_buffer_size.text
          r.upload_write_buffer_size.not_empty refl,
      r.upload_write_buffer_size.reads,
      int_default-itoa env "S3ND_PORT" (pos 15555) c.port r.port refl,
      int_default-itoa env "S3ND_UPLOAD_MAX_PARALLEL" (pos 100) c.upload_max_parallel
          r.upload_max_parallel refl,
      int_default-itoa env "S3ND_UPLOAD_TIMEOUT_FACTOR" (pos 1) c.upload_timeout_factor
          r.upload_timeout_factor refl,
      int_default-itoa env "S3ND_UPLOAD_TRIES" (pos 1) c.upload_tries r.upload_tries refl,
    )
