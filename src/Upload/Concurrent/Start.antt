-- ===== src/Upload/Concurrent/Start.antt =====
-- Any number of requests to upload/handler.go at once, from the handler that NewS3ndHandler makes.
use deliverator.Base.{
  ℕ, zero, suc, ◌+◌, ◌*◌, ◌^◌, ◌≤◌, ◌<◌, ◌≡◌, ◌⊎◌, inl, inr, sym, subst, ap, ◌∙◌, arith, some, List,
  [], ◌∷◌, ◌++◌, returned, returned-injective, >>=-eq-returned, Bool-cases, leb-cases, total,
  total-append, ◌==◌,
}
use deliverator.Base.Int.{pos, pos_part, eq_ℤ}
use deliverator.Conf.{Conf, upload_bwlimit_bytes}
use deliverator.Semaphore.{Msemaphore, Semaphore, new_semaphore, release}
use deliverator.Semaphore.Laws.{IsCounting, IsFresh, new_semaphore-IsFresh}
use deliverator.ConnTracker.Tracker.{
  ConnTracker, Sockets, rate_passed, new_conn_tracker, set_each, set_pacing_rate,
}
use deliverator.Upload.Handler.{
  Handler, new_handler, new_s3nd_handler, target_pace, update_pacing_rate,
}
use deliverator.Upload.Handler.Pacing.{
  sharers, uint64-pos, target_pace-share, update_pacing_rate-by,
}
use deliverator.Upload.Concurrent.{Phase, uploading, System, Reach}
use deliverator.Upload.Concurrent.Units.{units, IsAccounted, Reach-accounts}
use deliverator.Upload.Concurrent.Shares.{IsShare, IsShared, Holds, Reach-Holds}

-- A rate between the limit of n bytes per second, shared by as many parts as there can be, and n.
abbrev pub IsFair : ℕ → ℕ → ℕ → Type 0
IsFair n most p = (n ≤ p * sharers most) × (p ≤ n)

pub sharers_mono : (a b : ℕ) → a ≤ b → (sharers a ≤ sharers b) × (1 ≤ sharers a)
sharers_mono zero zero h = omega arith
sharers_mono zero (suc b) h = omega arith
sharers_mono (suc a) zero h = omega arith
sharers_mono (suc a) (suc b) h = omega arith

mul_mono : (p q a : ℕ) → p ≤ q → p * a ≤ q * a
mul_mono p q a h = grind arith

le-mul : (n a : ℕ) → 1 ≤ a → n ≤ n * a
le-mul n a h = grind arith

suc-mul : (n a : ℕ) → (n + 1) * a ≡ n * a + a
suc-mul n a = grind arith

mul_mono_right : (p a b : ℕ) → a ≤ b → p * a ≤ p * b
mul_mono_right p a b h = grind arith

below-limit : (n p a : ℕ) → 1 ≤ a → p * a < n + a → p ≤ n
below-limit n p a one hi = elim (leb-cases p n) [
  | inl (le, e) ↦ le
  | inr (gt, e) ↦
      absurd (omega (arith, mul_mono (n + 1) p a (omega arith), suc-mul n a, le-mul n a one))
]

fair-bounds : (n p a b : ℕ) → a ≤ b → 1 ≤ a → n ≤ p * a → p * a < n + a → (n ≤ p * b) × (p ≤ n)
fair-bounds n p a b le one lo hi =
    (omega (arith, mul_mono_right p a b le), below-limit n p a one hi)

module _ {S : Type 0} (m : Msemaphore S) where
  share-IsFair :
      (n most : ℕ) (rates : ℕ → ℕ)
      → n + sharers most ≤ 2 ^ 63
      → (p : ℕ) → IsShare m (pos n) most rates p
      → IsFair n most p
  share-IsFair n most rates fits p (k, le, e) =
      let (q, t, lo, hi) = target_pace-share m n k (omega (arith, sharers_mono k most le)) in
      let q-p : q ≡ p = returned-injective (sym t ∙ e) in
      subst (IsFair n most) q-p (
        fair-bounds n q (sharers k) (sharers most) (sharers_mono k most le).0
          (sharers_mono k most le).1 lo hi)

  update_pacing_rate-tracker :
      (s : Sockets) (h h' : Handler S)
      → update_pacing_rate m s h ≡ returned h'
      → (t : ConnTracker) × (h' ≡ record h { conn_tracker = t })
  unfolding update_pacing_rate
  update_pacing_rate-tracker s h h' e =
      let (limit, _, e1) = >>=-eq-returned (upload_bwlimit_bytes h.conf) _ e in
      elim (Bool-cases (eq_ℤ limit (pos 0))) [
        | inl z ↦ (h.conn_tracker, sym (returned-injective (rw z at e1)))
        | inr z ↦
            let (pace, _, e2) = >>=-eq-returned (target_pace m limit _) _ (rw z at e1) in
            (_, sym (returned-injective e2))
      ]

  module _ (k : Sockets) (c : Conf) (rates : ℕ → ℕ) {h : Handler S}
      (made : new_s3nd_handler m k c rates ≡ returned h) where
    made-parts :
        (sem : Semaphore S) × (new_semaphore m c.upload_max_parallel ≡ returned sem)
        × (update_pacing_rate m k (new_handler m c rates sem) ≡ returned h)
    unfolding new_s3nd_handler
    made-parts = >>=-eq-returned (new_semaphore m c.upload_max_parallel) _ made

    pub made-semaphore :
        (new_semaphore m c.upload_max_parallel ≡ returned h.parallel_uploads) × (h.conf ≡ c)
    made-semaphore =
        let (sem, n, u) = made-parts in
        let (t, e) = update_pacing_rate-tracker k (new_handler m c rates sem) h u in
        (n ∙ ap (λ x. returned x.parallel_uploads) (sym e), ap (λ x. x.conf) e)

    module _ (laws : IsCounting m) where
      fresh : IsFresh m c.upload_max_parallel h.parallel_uploads
      fresh = new_semaphore-IsFresh m laws _ _ made-semaphore.0

      pub made-IsAccounted :
          IsAccounted m laws (pos_part c.upload_max_parallel) (record { handler = h; threads = [] })
      made-IsAccounted = record {
        lent = fresh.lent;
        limited = fresh.limited;
        within = omega (arith, fresh.lent);
        counted = fresh.waiters;
      }

      -- From the handler of NewS3ndHandler on, with a semaphore that keeps the laws of its
      -- documentation, whatever requests arrive, whatever connections are dialed and closed, and in
      -- every interleaving: the count of the semaphore is the number of parts of the requests that
      -- have acquired it and not released it, it is at most upload_max_parallel, and `waiters`
      -- counts the requests that are blocked, modulo 2 ^ 32.
      pub made-accounts :
          {P : List Phase → Type 0} {s : System m}
          → Reach m P h s
          → IsAccounted m laws (pos_part c.upload_max_parallel) s
      made-accounts r = Reach-accounts m laws _ made-IsAccounted r

      -- From the handler of NewS3ndHandler on, with a semaphore that keeps the laws of its
      -- documentation, in every interleaving of requests, dials and closes: a request that uploads
      -- n parts got no more than upload_max_parallel, and its Release does not panic.
      pub uploading-releases :
          {P : List Phase → Type 0} (s : System m) (before after : List Phase) (n : ℕ)
          → Reach m P h s
          → s.threads ≡ before ++ uploading n ∷ after
          → (n ≤ pos_part c.upload_max_parallel)
            × ((sem : Semaphore S) × (release m n s.handler.parallel_uploads ≡ some sem))
      uploading-releases s before after n r e =
          let v = made-accounts r in
          let lent = ap (total units) e ∙ total-append units before (uploading n ∷ after) in
          let (i, left) = laws.leaves s.handler.parallel_uploads.inner n (omega (arith, v.lent)) in
          (
            omega (arith, v.lent, v.within),
            (record s.handler.parallel_uploads { inner = i }, rw (release, left)),
          )

      module _ (n : ℕ) (limited : 0 < n)
          (fits : n + sharers (pos_part c.upload_max_parallel) ≤ 2 ^ 63)
          (bytes : upload_bwlimit_bytes c ≡ returned (pos n)) where
        pub first-pace : target_pace m (pos n) 0 ≡ returned n
        unfolding target_pace
        first-pace = ap returned (uint64-pos n (omega arith))

        pub made-tracker : h.conn_tracker ≡ (set_pacing_rate k n (new_conn_tracker rates)).0
        made-tracker =
            let (sem, new, u) = made-parts in
            let count = (new_semaphore-IsFresh m laws _ sem new).lent in
            ap (λ x. x.conn_tracker)
              (returned-injective (
                sym u
                ∙ update_pacing_rate-by m k (new_handler m c rates sem) n n limited bytes
                    (ap (target_pace m (pos n)) count ∙ first-pace)))

        pub set-pace : (set_pacing_rate k n (new_conn_tracker rates)).0.upload_pace ≡ n
        unfolding set_pacing_rate new_conn_tracker
        set-pace = ground arith

        set-rates : (set_pacing_rate k n (new_conn_tracker rates)).0.max_pacing_rate ≡ rates
        unfolding set_pacing_rate new_conn_tracker set_each
        set-rates = elim (Bool-cases (n == 0)) [
          | inl e ↦ rw (set_pacing_rate, e)
          | inr e ↦ rw (set_pacing_rate, e)
        ]

        pub made-IsShared : IsShared m (pos n) (pos_part c.upload_max_parallel) rates h.conn_tracker
        made-IsShared =
            subst (IsShared m (pos n) (pos_part c.upload_max_parallel) rates) (sym made-tracker)
              (record {
                pace = (
                  0,
                  omega arith,
                  subst (λ p. target_pace m (pos n) 0 ≡ returned p) (sym set-pace) first-pace,
                );
                sockets = λ j. inl (ap (λ f. f j) set-rates);
              })

        pub made-IsRight :
            target_pace m (pos n) (m.get_count h.parallel_uploads.inner)
            ≡ returned h.conn_tracker.upload_pace
        made-IsRight =
            ap (target_pace m (pos n)) fresh.lent
            ∙ first-pace
            ∙ ap returned (sym (ap (λ x. x.upload_pace) made-tracker ∙ set-pace))

        made-Holds :
            {P : List Phase → Type 0} {s : System m}
            → Reach m P h s
            → Holds m (pos n) (pos_part c.upload_max_parallel) rates c bytes s
        made-Holds r =
            Reach-Holds m (pos n) _ rates c bytes laws made-IsAccounted
              (record { conf = made-semaphore.1; shared = made-IsShared; threads = tt }) r

        pub made-conf :
            {P : List Phase → Type 0} {s : System m} → Reach m P h s → s.handler.conf ≡ c
        made-conf r = (made-Holds r).conf

        -- From the handler of NewS3ndHandler on, with a semaphore that keeps the laws of its
        -- documentation and a bandwidth limit of n bytes per second, at least 1, where n and
        -- upload_max_parallel, or 1 if that is below, are together at most 2 ^ 63, in every
        -- interleaving of requests, dials and closes, however the updates of the pacing rate
        -- overtake one another: the recorded rate is at most the whole limit and at least the share
        -- of one of upload_max_parallel parts, and every socket has its first rate or the 32 bits
        -- that the kernel keeps of such a rate.
        pub made-IsFair :
            {P : List Phase → Type 0} {s : System m}
            → Reach m P h s
            → IsFair n (pos_part c.upload_max_parallel) s.handler.conn_tracker.upload_pace
              × ((j : ℕ)
                  → (s.handler.conn_tracker.max_pacing_rate j ≡ rates j)
                    ⊎ ((p : ℕ) × IsFair n (pos_part c.upload_max_parallel) p
                        × (s.handler.conn_tracker.max_pacing_rate j ≡ rate_passed p)))
        made-IsFair {s = s} r =
            let v = made-Holds r in
            let fair = share-IsFair n (pos_part c.upload_max_parallel) rates fits in
            (
              fair _ v.shared.pace,
              λ j. elim (v.shared.sockets j) [
                | inl e ↦ inl e
                | inr (p, share, e) ↦ inr (p, fair p share, e)
              ],
            )
