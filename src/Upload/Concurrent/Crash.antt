-- ===== src/Upload/Concurrent/Crash.antt =====
-- The race between the two reads of the count in updatePacingRate of upload/handler.go: the second
-- one can be 0, and DivCeil panics.
use deliverator.Base.{ℕ, ◌+◌, ◌≤◌, ◌<◌, ◌≡◌, refl, ap, ◌∙◌, arith, [], ◌∷◌, returned, panicked}
use deliverator.Util.{div_ceil}
use deliverator.Base.Int.{ℤ, pos, pos_part}
use deliverator.Conf.{Conf, upload_bwlimit_bytes}
use deliverator.Semaphore.{Msemaphore}
use deliverator.Semaphore.Laws.{IsCounting, room}
use deliverator.ConnTracker.Tracker.{Sockets}
use deliverator.Upload.Handler.{Handler, new_s3nd_handler}
use deliverator.Upload.Concurrent.{
  uploading, reads, divides, crashed, rebalancing, some_active, crash, releases, rebalances, System,
  arrives, Reach, here, next, Free,
}
use deliverator.Upload.Concurrent.Progress.{releases-left}
use deliverator.Upload.Concurrent.Calm.{nonzero}
use deliverator.Upload.Concurrent.Start.{made-semaphore, made-IsAccounted}
use deliverator.Upload.Concurrent.Runs.{Run, stop, first}
use deliverator.Upload.Concurrent.Scenes.{with_sem, comes-to_upload}

div_ceil-panics : (a : ℤ) (b : ℕ) → b ≡ 0 → div_ceil a (pos b) ≡ panicked "division by zero"
unfolding div_ceil
div_ceil-panics a b e = rw e

module _ {S : Type 0} (m : Msemaphore S) (laws : IsCounting m) (limit : ℕ)
    (limited : 0 < limit) where
  -- Two uploads end: the first request reads that the second one is still active, which it then is not.
  crashes :
      (k : Handler S) (n1 n2 : ℕ)
      → upload_bwlimit_bytes k.conf ≡ returned (pos limit)
      → m.get_count k.parallel_uploads.inner ≡ n1 + n2
      → 0 < n2
      → (t : System m) × Run m
          (λ p. Unit)
          (record { handler = k; threads = uploading n2 ∷ uploading n1 ∷ [] })
          4
          t
        × (t.threads ≡ rebalancing reads ∷ rebalancing crashed ∷ [])
  crashes k n1 n2 bytes count some_parts =
      let (a, left1) = laws.leaves k.parallel_uploads.inner n1 (omega (arith, count)) in
      let (count1, _) = laws.left k.parallel_uploads.inner a n1 left1 in
      let (b, left2) = laws.leaves a n2 (omega (arith, count, count1)) in
      let (count2, _) = laws.left a b n2 left2 in
      let crashing =
        crash bytes
          (div_ceil-panics (pos limit) (m.get_count b) (omega (arith, count, count1, count2))) in
      let reading =
        some_active bytes (λ z. nonzero limit limited z) (λ z. omega (arith, z, count, count1)) in
      (
        _,
        first (uploading n2 ∷ []) [] refl (releases (releases-left m n1 k.parallel_uploads a left1))
            tt
            (first (uploading n2 ∷ []) [] refl (rebalances reading) tt (
              first [] (rebalancing divides ∷ []) refl
                (releases (releases-left m n2 (with_sem a k).parallel_uploads b left2)) tt
                (first (rebalancing reads ∷ []) [] refl (rebalances crashing) tt stop))),
        refl,
      )

-- From the handler of NewS3ndHandler on, with a semaphore that keeps the laws of its documentation
-- and a bandwidth limit of at least 1 byte per second: two requests of n1 and n2 parts, each at
-- least 1, that fit upload_max_parallel together can reach a state where both upload, and four
-- moves from there the deferred updatePacingRate of one of them has panicked. It has read that the
-- other one is active, which then releases its units, and divides by the count that it reads again.
pub overtaken_count :
    {S : Type 0} (m : Msemaphore S) (laws : IsCounting m) (k : Sockets) (c : Conf) (rates : ℕ → ℕ)
    {h : Handler S} (n n1 n2 : ℕ)
    → new_s3nd_handler m k c rates ≡ returned h
    → upload_bwlimit_bytes c ≡ returned (pos n)
    → 0 < n
    → 0 < n1
    → 0 < n2
    → n1 + n2 ≤ pos_part c.upload_max_parallel
    → (s t : System m) × Reach m Free h s
      × (s.threads ≡ uploading n2 ∷ uploading n1 ∷ [])
      × Run m (λ p. Unit) s 4 t
      × (t.threads ≡ rebalancing reads ∷ rebalancing crashed ∷ [])
overtaken_count m laws k c rates {h} n n1 n2 made bytes limited some1 some2 le =
    let v = made-IsAccounted m k c rates made laws in
    let conf = ap upload_bwlimit_bytes (made-semaphore m k c rates made).1 ∙ bytes in
    let (i, e1, count1, limit1) =
      room m laws h.parallel_uploads.inner n1 (omega (arith, v.lent, v.limited)) in
    let (j, e2, count2, limit2) =
      room m laws i n2 (omega (arith, v.lent, v.limited, count1, limit1)) in
    let (t, r1) =
      comes-to_upload m h [] [] h n1 n i (next here (arrives n1)) e1 conf limited
        (omega (arith, count1)) in
    let (u, r2) =
      comes-to_upload m h [] (uploading n1 ∷ []) (record (with_sem i h) { conn_tracker = t }) n2 n j
        (next r1 (arrives n2)) e2 conf limited (omega (arith, count2)) in
    let (t, run, end) =
      crashes m laws n limited (record (with_sem j h) { conn_tracker = u }) n1 n2 conf
        (omega (arith, count1, count2, v.lent)) some2 in
    (_, t, r2, refl, run, end)
