-- ===== src/Upload/Concurrent/Starves.antt =====
-- The queue of upload/handler.go is not first in, first out: a request for many parts can be
-- overtaken by any number of later ones.
use deliverator.Base.{
  ℕ, zero, suc, ◌+◌, ◌≤◌, ◌<◌, ◌≡◌, ap, ◌∙◌, arith, none, some, List, [], ◌∷◌, ◌++◌, refl, returned,
  Option-cases, inl, inr,
}
use deliverator.Base.Int.{pos, pos_part}
use deliverator.Conf.{Conf, upload_bwlimit_bytes}
use deliverator.Semaphore.{Msemaphore, add_waiter}
use deliverator.Semaphore.Laws.{IsCounting, room}
use deliverator.Semaphore.System.{start, blocked, try_ok, try_fail, count_waiter}
use deliverator.ConnTracker.Tracker.{Sockets}
use deliverator.Upload.Handler.{Handler, new_s3nd_handler}
use deliverator.Upload.Concurrent.{
  Phase, acquiring, uploading, ended, unlimited, acquires, begins, paces, starts, releases,
  rebalances, returns, arrives, System, Move, Reach, here, next, Free,
}
use deliverator.Upload.Concurrent.Progress.{releases-left}
use deliverator.Upload.Concurrent.Start.{made-semaphore, made-IsAccounted}
use deliverator.Upload.Concurrent.Scenes.{goes, with_sem}

-- So many requests that have ended, after one that is blocked on w units came, and one that came
-- before it.
abbrev pub overtaken : ℕ → ℕ → List Phase
overtaken zero w = acquiring (blocked w) ∷ ended ∷ []
overtaken (suc j) w = ended ∷ overtaken j w

module _ {S : Type 0} (m : Msemaphore S) where
  -- Moves of goroutines that stand before those of `rest`, which make none.
  pub data Beside (rest : List Phase) : System m → System m → Type 0 where
    still : {s : System m} → Beside rest s s
    then_goes :
        {s t : System m} (before after : List Phase) {p q : Phase} {k : Handler S}
        → s.threads ≡ before ++ p ∷ (after ++ rest)
        → Move m s.handler p k q
        → Beside rest (record { handler = k; threads = before ++ q ∷ (after ++ rest) }) t
        → Beside rest s t

  -- A number of times, a request for n units has come, has got its units and begun its upload, and the
  -- one before it has ended, while those of `rest` did not move.
  pub data Overtakes (n : ℕ) (s : System m) : ℕ → System m → Type 0 where
    none_yet : Overtakes n s 0 s
    one_more :
        {j : ℕ} {t u : System m} (rest : List Phase)
        → Overtakes n s j t
        → t.threads ≡ uploading n ∷ rest
        → Beside rest (record t { threads = acquiring (start n) ∷ t.threads }) u
        → u.threads ≡ uploading n ∷ ended ∷ rest
        → Overtakes n s (suc j) u

module _ {S : Type 0} (m : Msemaphore S) (laws : IsCounting m) (h : Handler S) (most n : ℕ) where
  -- A handler without a bandwidth limit, with n units taken.
  record IsBusy (k : Handler S) : Type 0 where
    unlimited_rate : upload_bwlimit_bytes k.conf ≡ returned (pos 0)
    count : m.get_count k.parallel_uploads.inner ≡ n
    limit : m.get_limit k.parallel_uploads.inner ≡ most

  -- A request that gets its units at once, up to its upload.
  gets_units :
      (k : Handler S) (i : S) (after : List Phase)
      → upload_bwlimit_bytes k.conf ≡ returned (pos 0)
      → Reach m Free h (record { handler = k; threads = after })
      → m.enter k.parallel_uploads.inner n ≡ some i
      → Reach m Free h (record { handler = with_sem i k; threads = uploading n ∷ after })
  gets_units k i after free r e =
      goes m h [] after
        (goes m h [] after
          (goes m h [] after (goes m h [] after (next r (arrives n)) (acquires tt (try_ok e)))
            begins)
          (paces (unlimited free)))
        starts

  -- One more request is served, while the one before it still uploads.
  serves_one :
      (k : Handler S) (rest : List Phase)
      → n + n ≤ most
      → IsBusy k
      → (l : Handler S) × IsBusy l
        × Beside m rest
            (record { handler = k; threads = acquiring (start n) ∷ uploading n ∷ rest })
            (record { handler = l; threads = uploading n ∷ ended ∷ rest })
  serves_one k rest le b =
      let free = b.unlimited_rate in
      let (i, e, count, limit) =
        room m laws k.parallel_uploads.inner n (omega (arith, b.count, b.limit)) in
      let (j, left) = laws.leaves i n (omega (arith, count)) in
      let (count', limit') = laws.left i j n left in
      let old : List Phase = uploading n ∷ [] in
      let ends =
        then_goes old [] refl (releases (releases-left m n (with_sem i k).parallel_uploads j left))
          (then_goes old [] refl (rebalances (unlimited free))
            (then_goes old [] refl returns still)) in
      (
        with_sem j k,
        record {
          unlimited_rate = free;
          count = omega (arith, count, count', b.count);
          limit = limit' ∙ limit ∙ b.limit;
        },
        then_goes [] old refl (acquires tt (try_ok e)) (
            then_goes [] old refl begins
              (then_goes [] old refl (paces (unlimited free)) (then_goes [] old refl starts ends))),
      )

  serves_often :
      (w j : ℕ) (k : Handler S)
      → n + n ≤ most
      → IsBusy k
      → (l : Handler S) × IsBusy l
        × Overtakes m n
            (record { handler = k; threads = uploading n ∷ overtaken 0 w })
            j
            (record { handler = l; threads = uploading n ∷ overtaken j w })
  serves_often w zero k le b = (k, b, none_yet)
  serves_often w (suc j) k le b =
      let (l, b', before) = serves_often w j k le b in
      let (l', b'', moves) = serves_one l (overtaken j w) le b' in
      (l', b'', one_more (overtaken j w) before refl moves refl)

  no-room :
      (k : Handler S) (w : ℕ) → IsBusy k → most < n + w → m.enter k.parallel_uploads.inner w ≡ none
  no-room k w b lt = elim (Option-cases (m.enter k.parallel_uploads.inner w)) [
    | inl e ↦ e
    | inr (i, e) ↦
        let (count, limit, fits) = laws.entered k.parallel_uploads.inner i w e in
        absurd (omega (arith, fits, b.count, b.limit))
  ]

  -- A request for w units is blocked, and one for n units that came later is served beside it.
  is_blocked :
      (k : Handler S) (w : ℕ)
      → n + n ≤ most
      → most < n + w
      → IsBusy k
      → Reach m Free h (record { handler = k; threads = uploading n ∷ [] })
      → (l : Handler S) × IsBusy l
        × Reach m Free h (record { handler = l; threads = uploading n ∷ overtaken 0 w })
  is_blocked k w le lt b r =
      let waiting =
        goes m h [] (uploading n ∷ [])
          (goes m h [] (uploading n ∷ []) (next r (arrives w))
            (acquires tt (try_fail (no-room k w b lt))))
          (acquires tt count_waiter) in
      let l : Handler S = record k { parallel_uploads = add_waiter k.parallel_uploads } in
      let (i, e, count, limit) =
        room m laws k.parallel_uploads.inner n (omega (arith, b.count, b.limit)) in
      let (j, left) = laws.leaves i n (omega (arith, count)) in
      let (count', limit') = laws.left i j n left in
      let r1 =
        gets_units l i (acquiring (blocked w) ∷ uploading n ∷ []) b.unlimited_rate waiting e in
      (
        with_sem j l,
        record {
          unlimited_rate = b.unlimited_rate;
          count = omega (arith, count, count', b.count);
          limit = limit' ∙ limit ∙ b.limit;
        },
        goes m h (uploading n ∷ acquiring (blocked w) ∷ []) []
            (goes m h (uploading n ∷ acquiring (blocked w) ∷ []) []
              (goes m h (uploading n ∷ acquiring (blocked w) ∷ []) [] r1
                (releases (releases-left m n (with_sem i l).parallel_uploads j left)))
              (rebalances (unlimited b.unlimited_rate)))
            returns,
      )

-- From the handler of NewS3ndHandler on, with a semaphore that keeps the laws of its documentation
-- and without a bandwidth limit: a request for w parts that would get its units at once if it came
-- alone, but does not fit upload_max_parallel beside one for n parts, while two of those fit, can
-- be overtaken by as many later requests for n parts as one likes. It gets to a state where it is
-- blocked and one of those uploads, and from there on j times in a row such a request comes, gets
-- its units and uploads, and the one before it ends, without a move of the blocked request.
pub starves :
    {S : Type 0} (m : Msemaphore S) (laws : IsCounting m) (k : Sockets) (c : Conf) (rates : ℕ → ℕ)
    {h : Handler S} (n w j : ℕ)
    → new_s3nd_handler m k c rates ≡ returned h
    → upload_bwlimit_bytes c ≡ returned (pos 0)
    → n + n ≤ pos_part c.upload_max_parallel
    → w ≤ pos_part c.upload_max_parallel
    → pos_part c.upload_max_parallel < n + w
    → ((a : S) × (m.enter h.parallel_uploads.inner w ≡ some a))
      × ((s t : System m) × Reach m Free h s
          × (s.threads ≡ uploading n ∷ acquiring (blocked w) ∷ ended ∷ [])
          × Overtakes m n s j t
          × (t.threads ≡ uploading n ∷ overtaken j w))
starves m laws k c rates {h} n w j made bytes le alone lt =
    let v = made-IsAccounted m k c rates made laws in
    let most : ℕ = pos_part c.upload_max_parallel in
    let free = ap upload_bwlimit_bytes (made-semaphore m k c rates made).1 ∙ bytes in
    let (i, e, count, limit) =
      room m laws h.parallel_uploads.inner n (omega (arith, v.lent, v.limited)) in
    let (l, b, r) =
      is_blocked m laws h most n (with_sem i h) w le lt
        (record {
          unlimited_rate = free;
          count = omega (arith, count, v.lent);
          limit = limit ∙ v.limited;
        })
        (gets_units m laws h most n h i [] free here e) in
    let (a, fits, _, _) =
      room m laws h.parallel_uploads.inner w (omega (arith, v.lent, v.limited)) in
    let (_, _, o) = serves_often m laws h most n w j l le b in ((a, fits), (_, _, r, refl, o, refl))
