-- ===== src/Upload/Concurrent/Scenes.antt =====
-- Steps of the concurrent handler of upload/handler.go, put together to scenes: a request that gets
-- its units at once and updates the pacing rate.
use deliverator.Base.{
  ℕ, ◌<◌, ◌≡◌, ◌≢◌, refl, ◌∙◌, arith, true, some, List, ◌∷◌, ◌++◌, returned, returned-injective,
  sym, subst, Bool-cases, inl, inr, ◌==◌, ==_iff,
}
use deliverator.Util.{div_ceil}
use deliverator.Util.Bounds.{div_ceil-returned}
use deliverator.Base.Int.{ℤ, uint64, pos}
use deliverator.Conf.{upload_bwlimit_bytes}
use deliverator.Semaphore.{Msemaphore}
use deliverator.Semaphore.System.{start, try_ok}
use deliverator.ConnTracker.Tracker.{
  ConnTracker, set_each, rate_passed, set_conn_pacing_rate, rate_error, update,
}
use deliverator.ConnTracker.Pacing.{member, set_each-rate}
use deliverator.Upload.Handler.{Handler, target_pace}
use deliverator.Upload.Handler.Returns.{target_pace-Returns}
use deliverator.Upload.Handler.Pacing.{target_pace-divide, pos-not_zero}
use deliverator.Upload.Concurrent.{
  compares, Phase, acquiring, pacing, uploading, record_pace, record_rates, divides, Change,
  some_active, divide, same, differs, store, apply, Move, acquires, begins, paces, starts, moves,
  Reach, next, Free,
}
use deliverator.Upload.Concurrent.Alone.{quiet, not-eq}
use deliverator.Upload.Concurrent.Calm.{nonzero}

abbrev pub with_rate : {S : Type 0} → ℕ → Handler S → Handler S
with_rate p k =
    record_rates (set_each quiet k.conn_tracker.max_pacing_rate p k.conn_tracker.active).0
      (record_pace p k)

abbrev pub with_sem : {S : Type 0} → S → Handler S → Handler S
with_sem i k = record k { parallel_uploads = record k.parallel_uploads { inner = i } }

pub member-head : (c : ℕ) (cs : List ℕ) → member c (c ∷ cs) ≡ true
member-head c cs = ground arith

pub quiet-rate :
    (rates : ℕ → ℕ) (c p : ℕ) → (set_conn_pacing_rate quiet rates c p).0 c ≡ rate_passed p
unfolding set_conn_pacing_rate rate_error update
quiet-rate rates c p = ground arith

-- All active connections have the rate that was set for them.
pub quiet-rates :
    (rates : ℕ → ℕ) (c p : ℕ) (cs : List ℕ) → (set_each quiet rates p (c ∷ cs)).0 c ≡ rate_passed p
unfolding rate_error
quiet-rates rates c p cs = set_each-rate quiet rates p (c ∷ cs) c ∙ ground (arith, member-head c cs)

-- The quotient that DivCeil returns for the rate.
share-of :
    {S : Type 0} (m : Msemaphore S) (limit : ℤ) (count p : ℕ)
    → 0 < count
    → target_pace m limit count ≡ returned p
    → (share : ℤ) × (div_ceil limit (pos count) ≡ returned share) × (uint64 share ≡ p)
share-of m limit count p active t =
    let d = div_ceil-returned limit (pos count) (pos-not_zero count (λ z. omega (arith, z))) in
    (_, d, returned-injective (sym (target_pace-divide m limit _ count d) ∙ t))

module _ {S : Type 0} (m : Msemaphore S) (h : Handler S) (before after : List Phase) where
  -- A reachable handler, with threads that stand between others.
  abbrev pub Reaches : Handler S → Phase → Type 0
  Reaches k p = Reach m Free h (record { handler = k; threads = before ++ p ∷ after })

  pub goes : {k l : Handler S} {p q : Phase} → Reaches k p → Move m k p l q → Reaches l q
  goes r mv = next r (moves before after refl tt mv)

  -- A request that gets its units at once, and reads the count.
  pub begins-read :
      (k : Handler S) (n limit p : ℕ) (i : S)
      → Reaches k (acquiring (start n))
      → m.enter k.parallel_uploads.inner n ≡ some i
      → upload_bwlimit_bytes k.conf ≡ returned (pos limit)
      → 0 < limit
      → 0 < m.get_count i
      → target_pace m (pos limit) (m.get_count i) ≡ returned p
      → Reaches (with_sem i k) (pacing n (compares p))
  begins-read k n limit p i r e bytes limited active t =
      let (share, d, eq) = share-of m (pos limit) (m.get_count i) p active t in
      let reading : Reaches (with_sem i k) (pacing n divides) =
        goes (goes (goes r (acquires tt (try_ok e))) begins)
          (paces (some_active bytes (λ z. nonzero limit limited z) (λ z. omega (arith, z)))) in
      goes reading (
        paces (
          subst (λ x. Change m (with_sem i k) divides (with_sem i k) (compares x)) eq
            (divide bytes d)))

  -- A request that ends its update, and starts its upload.
  pub updates :
      (k : Handler S) (n p : ℕ)
      → Reaches k (pacing n (compares p))
      → p ≢ k.conn_tracker.upload_pace
      → Reaches (with_rate p k) (uploading n)
  updates k n p r ne =
      goes (goes (goes (goes r (paces (differs ne))) (paces store)) (paces (apply quiet))) starts

  -- The end of an update, whatever rate is recorded.
  pub update-ends :
      (k : Handler S) (n p : ℕ)
      → Reaches k (pacing n (compares p))
      → (t : ConnTracker) × Reaches (record k { conn_tracker = t }) (uploading n)
  update-ends k n p r = elim (Bool-cases (p == k.conn_tracker.upload_pace)) [
    | inl e ↦
        let eq = (==_iff p k.conn_tracker.upload_pace).0 e in
        (k.conn_tracker, goes (goes r (paces (same eq))) starts)
    | inr e ↦
        ((with_rate p k).conn_tracker, updates k n p r (not-eq p k.conn_tracker.upload_pace e))
  ]

  -- A request that gets its units at once, up to its upload.
  pub comes-to_upload :
      (k : Handler S) (n limit : ℕ) (i : S)
      → Reaches k (acquiring (start n))
      → m.enter k.parallel_uploads.inner n ≡ some i
      → upload_bwlimit_bytes k.conf ≡ returned (pos limit)
      → 0 < limit
      → 0 < m.get_count i
      → (t : ConnTracker) × Reaches (record (with_sem i k) { conn_tracker = t }) (uploading n)
  comes-to_upload k n limit i r e bytes limited active =
      let (p, target) = target_pace-Returns m (pos limit) (m.get_count i) in
      update-ends (with_sem i k) n p (begins-read k n limit p i r e bytes limited active target)
