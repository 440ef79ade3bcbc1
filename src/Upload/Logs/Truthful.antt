-- ===== src/Upload/Logs/Truthful.antt =====
-- What logUploads of upload/handler.go says while many requests are served.
use deliverator.Base.{
  ℕ, zero, suc, ◌+◌, ◌*◌, ◌%◌, ◌^◌, ◌≤◌, ◌<◌, ◌≡◌, ◌⊎◌, inl, inr, refl, subst, ap, ◌∙◌, leb-cases,
  arith, none, some, List, ◌==◌, if◌then◌else◌, returned, total,
}
use deliverator.Base.Int.{pos, pos_part}
use deliverator.Util.{div_ceil}
use deliverator.Util.Bounds.{div_ceil_ceiling}
use deliverator.Conf.{Conf, upload_bwlimit_bytes}
use deliverator.Semaphore.{Msemaphore}
use deliverator.Semaphore.Laws.{IsCounting}
use deliverator.ConnTracker.Tracker.{Sockets}
use deliverator.Upload.Task.{Float64}
use deliverator.Upload.Handler.{Handler, new_s3nd_handler}
use deliverator.Upload.Handler.Pacing.{sharers, suc-eq-zero}
use deliverator.Upload.Concurrent.{Phase, System, Reach}
use deliverator.Upload.Concurrent.Units.{units, waits, Reach-conf}
use deliverator.Upload.Concurrent.Start.{made-accounts, made-semaphore, made-IsFair}
use deliverator.Upload.Logs.{
  number, real, LogRecord, attribute, mbits, pacing_rate_mbits, log_uploads,
}

-- A rate p in bytes per second, which is less than b + 8 in bits unless b is 0.
abbrev pub WithinLimit : ℕ → ℕ → Type 0
WithinLimit b p = (b ≡ 0) ⊎ (p * 8 < b + 8)

module _ {F : Type 0} (fl : Float64 F) where
  -- A record that gives a number of active parts and of queued requests, and, if the limit of b bits
  -- per second is not 0, a rate p in bytes per second and as exactly 8 times that in bits.
  pub record Tells (b parts queued p : ℕ) (r : LogRecord F) : Type 0 where
    pub active : attribute "upload_parts_active" r.attrs ≡ some (number parts)
    pub waiting : attribute "upload_queued" r.attrs ≡ some (number queued)
    pub in_bytes :
        attribute "s3_tcp_conn_pace_bytes" r.attrs ≡ (if b == 0 then none else some (number p))
    pub in_mbits : attribute "s3_tcp_conn_pace_mbits" r.attrs ≡ (
        if b == 0
        then none
        else some (real (fl.div_f (fl.of_int64 (pos (p * 8))) (fl.of_int64 (pos 1_048_576)))))

  mbits-exact :
      (p : ℕ)
      → p * 8 < 2 ^ 64
      → mbits fl p ≡ fl.div_f (fl.of_int64 (pos (p * 8))) (fl.of_int64 (pos 1_048_576))
  unfolding mbits
  mbits-exact p h =
      ap (λ x. fl.div_f (fl.of_int64 (pos x)) (fl.of_int64 (pos 1_048_576))) (omega arith)

  below-width : (p k : ℕ) → WithinLimit (suc k) p → suc k + 8 ≤ 2 ^ 63 → p * 8 < 2 ^ 64
  below-width p k (inl e) fits = omega arith
  below-width p k (inr h) fits = omega arith

  module _ {S : Type 0} (m : Msemaphore S) where
    log_uploads-Tells :
        (h : Handler S) (b : ℕ)
        → h.conf.upload_bwlimit.value ≡ pos b
        → WithinLimit b h.conn_tracker.upload_pace
        → b + 8 ≤ 2 ^ 63
        → Tells b
            (m.get_count h.parallel_uploads.inner)
            h.parallel_uploads.waiters
            h.conn_tracker.upload_pace
            (log_uploads fl m h)
    unfolding log_uploads pacing_rate_mbits
    log_uploads-Tells h zero e bound fits = record {
      active = rw (log_uploads, e) refl;
      waiting = rw (log_uploads, e) refl;
      in_bytes = rw (log_uploads, e) refl;
      in_mbits = rw (log_uploads, e) refl;
    }
    log_uploads-Tells h (suc k) e bound fits = record {
      active = rw (log_uploads, e, suc-eq-zero k) refl;
      waiting = rw (log_uploads, e, suc-eq-zero k) refl;
      in_bytes = rw (log_uploads, e, suc-eq-zero k) refl;
      in_mbits =
          rw (log_uploads, e, suc-eq-zero k)
            (ap (λ x. some (real x)) (mbits-exact _ (below-width _ k bound fits)));
    }

    module _ (laws : IsCounting m) (k : Sockets) (c : Conf) (rates : ℕ → ℕ) (b : ℕ) {h : Handler S}
        (made : new_s3nd_handler m k c rates ≡ returned h) (limit : c.upload_bwlimit.value ≡ pos b)
        (fits : b + 8 + sharers (pos_part c.upload_max_parallel) ≤ 2 ^ 63) where
      pace-bound :
          {P : List Phase → Type 0} {s : System m}
          → Reach m P h s
          → WithinLimit b s.handler.conn_tracker.upload_pace
      unfolding upload_bwlimit_bytes
      pace-bound {s = s} r = elim (leb-cases b 0) [
        | inl (le, e) ↦ inl (omega arith)
        | inr (gt, e) ↦
            let (n, bytes, lo, hi) = div_ceil_ceiling b 8 (omega arith) (omega arith) in
            let (fair, _) =
              made-IsFair m k c rates made laws n (omega arith) (omega arith)
                (ap (λ z. div_ceil z (pos 8)) limit ∙ bytes) r in
            inr (omega (arith, fair.1))
      ]

      -- From the handler of NewS3ndHandler on, with a semaphore that keeps the laws of its
      -- documentation and a limit of b bits per second that with upload_max_parallel is far enough
      -- below 2 ^ 63, in every interleaving of requests, dials and closes: the record of logUploads,
      -- taken as one step, gives as active parts those of the requests that have acquired their
      -- units and not released them, and as queued the requests that are blocked, modulo 2 ^ 32. It
      -- gives a rate exactly if b is not 0, which is then the recorded one and less than b + 8 in
      -- bits, so that the product in PacingRateMbits does not wrap, and is 8 times that rate.
      pub log_uploads-truthful :
          {P : List Phase → Type 0} {s : System m}
          → Reach m P h s
          → Tells b
              (total units s.threads)
              (total waits s.threads % 2 ^ 32)
              s.handler.conn_tracker.upload_pace
              (log_uploads fl m s.handler)
            × WithinLimit b s.handler.conn_tracker.upload_pace
      log_uploads-truthful {s = s} r =
          let v = made-accounts m k c rates made laws r in
          let conf = Reach-conf m r ∙ (made-semaphore m k c rates made).1 in
          let told =
            log_uploads-Tells s.handler b (ap (λ x. x.upload_bwlimit.value) conf ∙ limit)
              (pace-bound r) (omega arith) in
          (
            subst
                (λ q.
                  Tells b (total units s.threads) q s.handler.conn_tracker.upload_pace
                    (log_uploads fl m s.handler))
                v.counted
                (subst
                  (λ q.
                    Tells b q s.handler.parallel_uploads.waiters s.handler.conn_tracker.upload_pace
                      (log_uploads fl m s.handler))
                  v.lent told),
            pace-bound r,
          )
