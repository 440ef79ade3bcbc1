-- ===== src/Upload/Handler/Pacing.antt =====
-- updatePacingRate of upload/handler.go: how the bandwidth limit is shared out.
use deliverator.Base.{
  false, ◌==◌, ℕ, zero, suc, ◌+◌, ◌*◌, ◌^◌, ◌≤◌, ◌<◌, ◌≡◌, refl, ap, ◌∙◌, arith, returned, panicked,
  String, ◌≢◌, sym,
}
use deliverator.Base.Int.{ℤ, pos, uint64}
use deliverator.Util.{div_ceil}
use deliverator.Util.Bounds.{div_ceil_ceiling, div_ceil-returned}
use deliverator.Conf.{upload_bwlimit_bytes}
use deliverator.Semaphore.{Msemaphore}
use deliverator.ConnTracker.Tracker.{Sockets, set_pacing_rate}
use deliverator.Upload.Handler.{Handler, target_pace, update_pacing_rate}

-- The number of connections that share the limit: none counts as one.
abbrev pub sharers : ℕ → ℕ
sharers zero = 1
sharers (suc k) = suc k

pub uint64-pos : (n : ℕ) → n < 2 ^ 64 → uint64 (pos n) ≡ n
uint64-pos n h = omega arith

pub suc-eq-zero : (k : ℕ) → (suc k == 0) ≡ false
suc-eq-zero k = ground arith

le-mul_suc : (q k : ℕ) → q ≤ q * suc k
le-mul_suc q k = grind arith

returned-not-panicked : {A : Type 0} (a : A) {msg : String} → returned a ≢ panicked msg
returned-not-panicked a e = cc

pub pos-not_zero : (k : ℕ) → k ≢ 0 → pos k ≢ pos 0
pos-not_zero k h = ground arith

div_ceil-zero : (limit share : ℤ) → div_ceil limit (pos 0) ≢ returned share
unfolding div_ceil
div_ceil-zero limit share e = cc

pub never-crashes :
    (limit : ℤ) (count : ℕ) → count ≢ 0 → {msg : String} → div_ceil limit (pos count) ≢ panicked msg
never-crashes limit count ne e =
    returned-not-panicked _ (sym (div_ceil-returned limit (pos count) (pos-not_zero count ne)) ∙ e)

module _ {S : Type 0} (m : Msemaphore S) where
  -- For a limit of n bytes per second, the rate is the limit over the active parts, rounded up.
  pub target_pace-share :
      (n count : ℕ)
      → n + sharers count ≤ 2 ^ 63
      → (p : ℕ) × (target_pace m (pos n) count ≡ returned p)
        × (n ≤ p * sharers count)
        × (p * sharers count < n + sharers count)
  unfolding target_pace
  target_pace-share n zero h =
      (n, ap returned (uint64-pos n (omega arith)), omega arith, omega arith)
  target_pace-share n (suc k) h =
      let (q, e, lo, hi) = div_ceil_ceiling n (suc k) (omega arith) h in
      (
        q,
        rw (suc-eq-zero k, e) (ap returned (uint64-pos q (omega (arith, le-mul_suc q k)))),
        lo,
        hi,
      )

  pub target_pace-none : (limit : ℤ) → target_pace m limit 0 ≡ returned (uint64 limit)
  unfolding target_pace
  target_pace-none limit = refl

  -- A quotient that DivCeil returns is the rate: its divisor was not 0.
  pub target_pace-divide :
      (limit share : ℤ) (count : ℕ)
      → div_ceil limit (pos count) ≡ returned share
      → target_pace m limit count ≡ returned (uint64 share)
  unfolding target_pace
  target_pace-divide limit share zero e = absurd (div_ceil-zero limit share e)
  target_pace-divide limit share (suc k) e = rw (suc-eq-zero k, e)

  pub update_pacing_rate-by :
      (s : Sockets) (h : Handler S) (n p : ℕ)
      → 0 < n
      → upload_bwlimit_bytes h.conf ≡ returned (pos n)
      → target_pace m (pos n) (m.get_count h.parallel_uploads.inner) ≡ returned p
      → update_pacing_rate m s h
        ≡ returned (record h { conn_tracker = (set_pacing_rate s p h.conn_tracker).0 })
  unfolding update_pacing_rate
  update_pacing_rate-by s h zero p hn eb et = elim hn [ ]
  update_pacing_rate-by s h (suc n) p hn eb et = rw (eb, suc-eq-zero n, et)

  -- With c the count of the semaphore, or 1 if that is 0: for a bandwidth limit of b bits per
  -- second, at least 1, where b + 8 + c is at most 2 ^ 63, updatePacingRate sets the tracker to a
  -- rate p with no other change of the handler. With B the bytes per second that b bits are,
  -- rounded up, p is B over c rounded up: so c connections at rate p reach the limit, and exceed B
  -- by less than c bytes per second.
  pub update_pacing_rate-share :
      (s : Sockets) (h : Handler S) (b : ℕ)
      → h.conf.upload_bwlimit.value ≡ pos b
      → 0 < b
      → b + 8 + sharers (m.get_count h.parallel_uploads.inner) ≤ 2 ^ 63
      → (p bytes : ℕ) × (update_pacing_rate m s h
          ≡ returned (record h { conn_tracker = (set_pacing_rate s p h.conn_tracker).0 }))
        × (b ≤ bytes * 8)
        × (bytes * 8 < b + 8)
        × (bytes ≤ p * sharers (m.get_count h.parallel_uploads.inner))
        × (p * sharers (m.get_count h.parallel_uploads.inner)
            < bytes + sharers (m.get_count h.parallel_uploads.inner))
  unfolding upload_bwlimit_bytes
  update_pacing_rate-share s h b e hb fits =
      let (bytes, eb, lo, hi) = div_ceil_ceiling b 8 (omega arith) (omega arith) in
      let (p, et, least, most) =
        target_pace-share bytes (m.get_count h.parallel_uploads.inner) (omega arith) in
      (
        p,
        bytes,
        update_pacing_rate-by s h bytes p (omega arith) (ap (λ z. div_ceil z (pos 8)) e ∙ eb) et,
        lo,
        hi,
        least,
        most,
      )
