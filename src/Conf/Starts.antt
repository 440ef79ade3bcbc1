-- ===== src/Conf/Starts.antt =====
-- When NewS3ndConf of conf/conf.go returns, and what it never returns.
use deliverator.Base.{
  ℕ, ◌≡◌, ◌≢◌, ◌↔◌, inl, inr, refl, sym, ap, arith, String, false, Option, none, some, str_eq,
  Bool-cases, Option-cases,
}
use deliverator.Base.Int.{ℤ, pos}
use deliverator.Conf.{
  Quantity, Conf, Formats, Env, Flags, parsed, Start, started, exited, or_else, int_default,
  text_default, new_s3nd_conf, require, ◌>>=◌,
}

exited-not-started : (k : ℕ) (m : String) (c : Conf) → exited k m ≢ started c
exited-not-started k m c h = cc

int_default-ne_zero : (env : Env) (key : String) (d : ℤ) → d ≢ pos 0 → int_default env key d ≢ pos 0
unfolding int_default
int_default-ne_zero env key d h = ground arith

or_else-ne_zero :
    (o : Option ℤ) (env : Env) (key : String) (d z : ℤ)
    → d ≢ pos 0
    → z ≡ or_else o (int_default env key d)
    → o ≡ none
    → z ≢ pos 0
or_else-ne_zero o env key d z h e n = ground (arith, int_default-ne_zero env key d h)

started-injective : (c d : Conf) → started c ≡ started d → c ≡ d
started-injective c d e = ap (λ s. elim s [ started x ↦ x | exited k m ↦ c ]) e

module _ {A B : Type 0} (o : Option A) (msg : String) (k : A → Start B) where
  require-started :
      (b : B) → (require o msg >>= k) ≡ started b → (a : A) × (o ≡ some a) × (k a ≡ started b)
  require-started b e = elim (Option-cases o) [
    | inl n ↦ absurd (ground arith)
    | inr (a, s) ↦ (a, s, ground arith)
  ]

  started-require :
      (a : A)
      → o ≡ some a
      → (b : B) × (k a ≡ started b)
      → (b : B) × ((require o msg >>= k) ≡ started b)
  started-require a e (b, s) = (b, ground arith)

module _ (f : Formats) (env : Env) (flags : Flags) (version : String) where
  -- The version is not asked for, there is an endpoint, and both durations and all three quantities
  -- can be read.
  pub record IsStartable : Type 0 where
    pub no_version : flags.version ≡ false
    pub endpoint_url :
        str_eq (or_else flags.endpoint_url (or_else (env "S3ND_ENDPOINT_URL") "")) "" ≡ false
    pub upload_timeout :
        (d : ℤ) × (f.parse_duration
            (or_else flags.upload_timeout (text_default env "S3ND_UPLOAD_TIMEOUT" "10s"))
          ≡ some d)
    pub queue_timeout :
        (d : ℤ) × (f.parse_duration
            (or_else flags.queue_timeout (text_default env "S3ND_QUEUE_TIMEOUT" "10s"))
          ≡ some d)
    pub upload_partsize :
        (q : Quantity) × (f.parse_quantity
            (or_else flags.upload_partsize (text_default env "S3ND_UPLOAD_PARTSIZE" "5Mi"))
          ≡ some q)
    pub upload_bwlimit :
        (q : Quantity) × (f.parse_quantity
            (or_else flags.upload_bwlimit (text_default env "S3ND_UPLOAD_BWLIMIT" "0"))
          ≡ some q)
    pub upload_write_buffer_size :
        (q : Quantity) × (f.parse_quantity (
            or_else flags.upload_write_buffer_size
              (text_default env "S3ND_UPLOAD_WRITE_BUFFER_SIZE" "64Ki"))
          ≡ some q)

  startable-started :
      IsStartable → (c : Conf) × (new_s3nd_conf f env (parsed flags) version ≡ started c)
  unfolding new_s3nd_conf
  startable-started s =
      rw (s.no_version, s.endpoint_url)
        (started-require _ _ _ s.upload_timeout.0 s.upload_timeout.1 (
          started-require _ _ _ s.queue_timeout.0 s.queue_timeout.1 (
            started-require _ _ _ s.upload_partsize.0 s.upload_partsize.1 (
              started-require _ _ _ s.upload_bwlimit.0 s.upload_bwlimit.1 (
                started-require _ _ _ s.upload_write_buffer_size.0 s.upload_write_buffer_size.1
                  (_, refl))))))

  started-startable :
      (c : Conf) → new_s3nd_conf f env (parsed flags) version ≡ started c → IsStartable
  unfolding new_s3nd_conf
  started-startable c e = elim (Bool-cases flags.version) [
    | inl asked ↦ absurd (exited-not-started _ _ c (rw asked at e))
    | inr no_version ↦
        elim (Bool-cases
          (str_eq (or_else flags.endpoint_url (or_else (env "S3ND_ENDPOINT_URL") "")) "")) [
            | inl empty ↦ absurd (exited-not-started _ _ c (rw (no_version, empty) at e))
            | inr endpoint ↦
                let e' = rw (no_version, endpoint) at e in
                let (a1, s1, e1) = require-started _ _ _ c e' in
                let (a2, s2, e2) = require-started _ _ _ c e1 in
                let (a3, s3, e3) = require-started _ _ _ c e2 in
                let (a4, s4, e4) = require-started _ _ _ c e3 in
                let (a5, s5, e5) = require-started _ _ _ c e4 in
                record {
                  no_version = no_version;
                  endpoint_url = endpoint;
                  upload_timeout = (a1, s1);
                  queue_timeout = (a2, s2);
                  upload_partsize = (a3, s3);
                  upload_bwlimit = (a4, s4);
                  upload_write_buffer_size = (a5, s5);
                }
          ]
  ]

  -- NewS3ndConf returns a configuration exactly when -version is not given, there is an endpoint
  -- URL, and the texts of both durations and all three quantities can be read, where a text is that
  -- of the flag, else of the variable if it is not empty, else the default.
  pub new_s3nd_conf-IsStartable :
      ((c : Conf) × (new_s3nd_conf f env (parsed flags) version ≡ started c)) ↔ IsStartable
  new_s3nd_conf-IsStartable = (λ h. started-startable h.0 h.1, startable-started)

  -- The numbers of a configuration, where the flags do not give them.
  numbers :
      (c : Conf)
      → new_s3nd_conf f env (parsed flags) version ≡ started c
      → (c.port ≡ or_else flags.port (int_default env "S3ND_PORT" (pos 15555)))
        × (c.upload_max_parallel
            ≡ or_else flags.upload_max_parallel
                (int_default env "S3ND_UPLOAD_MAX_PARALLEL" (pos 100)))
        × (c.upload_timeout_factor
            ≡ or_else flags.upload_timeout_factor
                (int_default env "S3ND_UPLOAD_TIMEOUT_FACTOR" (pos 1)))
        × (c.upload_tries
            ≡ or_else flags.upload_tries (int_default env "S3ND_UPLOAD_TRIES" (pos 1)))
  unfolding new_s3nd_conf
  numbers c e =
      let s = started-startable c e in
      let e' : new_s3nd_conf f env (parsed flags) version ≡ started c = e in
      let e'' =
        rw
          (
            s.no_version, s.endpoint_url, s.upload_timeout.1, s.queue_timeout.1,
            s.upload_partsize.1, s.upload_bwlimit.1, s.upload_write_buffer_size.1,
          )
          at e' in
      let q = sym (started-injective _ c e'') in
      (
        ap (λ x. x.port) q,
        ap (λ x. x.upload_max_parallel) q,
        ap (λ x. x.upload_timeout_factor) q,
        ap (λ x. x.upload_tries) q,
      )

  -- In a configuration that NewS3ndConf returns, a number that no flag gives is not 0, whatever the
  -- variables are: not the port, the limit of parallel uploads, the timeout factor, or the tries.
  -- Only a flag can set one of them to 0.
  pub new_s3nd_conf-never_zero :
      (c : Conf)
      → new_s3nd_conf f env (parsed flags) version ≡ started c
      → (flags.port ≡ none → c.port ≢ pos 0)
        × (flags.upload_max_parallel ≡ none → c.upload_max_parallel ≢ pos 0)
        × (flags.upload_timeout_factor ≡ none → c.upload_timeout_factor ≢ pos 0)
        × (flags.upload_tries ≡ none → c.upload_tries ≢ pos 0)
  new_s3nd_conf-never_zero c e =
      let (port, parallel, factor, tries) = numbers c e in
      (
        or_else-ne_zero flags.port env _ _ c.port (λ h. cc) port,
        or_else-ne_zero flags.upload_max_parallel env _ _ c.upload_max_parallel (λ h. cc) parallel,
        or_else-ne_zero flags.upload_timeout_factor env _ _ c.upload_timeout_factor (λ h. cc)
            factor,
        or_else-ne_zero flags.upload_tries env _ _ c.upload_tries (λ h. cc) tries,
      )
