-- ===== src/Upload/Concurrent/Races.antt =====
-- Two races of upload/handler.go and conntracker/conntracker.go: an update of the pacing rate that
-- is overtaken by another one, and one that overtakes a connection which is being made.
use deliverator.Base.{
  ℕ, ◌+◌, ◌^◌, ◌≤◌, ◌<◌, ◌≡◌, ◌≢◌, refl, ap, ◌∙◌, arith, true, [], ◌∷◌, All, returned, total,
}
use deliverator.Base.Int.{pos, pos_part}
use deliverator.Conf.{Conf, upload_bwlimit_bytes}
use deliverator.Semaphore.{Msemaphore}
use deliverator.Semaphore.Laws.{IsCounting, room}
use deliverator.ConnTracker.Tracker.{Sockets, rate_passed, add_conn}
use deliverator.ConnTracker.Pacing.{member}
use deliverator.Upload.Handler.{Handler, new_s3nd_handler, target_pace}
use deliverator.Upload.Handler.Pacing.{sharers}
use deliverator.Upload.Concurrent.{
  compares, Phase, pacing, uploading, setting, inserts, paced, loads, sets, System, arrives, dials,
  Reach, here, next, Free,
}
use deliverator.Upload.Concurrent.Alone.{quiet}
use deliverator.Upload.Concurrent.Units.{units}
use deliverator.Upload.Concurrent.Calm.{IsSettled}
use deliverator.Upload.Concurrent.Start.{made-semaphore, made-IsAccounted, made-tracker, set-pace}
use deliverator.Upload.Concurrent.Runs.{Run, stop, first}
use deliverator.Upload.Concurrent.Scenes.{
  goes, begins-read, updates, with_rate, with_sem, member-head, quiet-rate, quiet-rates,
}

module _ {S : Type 0} (m : Msemaphore S) (laws : IsCounting m) where
  module _ (k : Sockets) (c : Conf) (rates : ℕ → ℕ) {h : Handler S}
      (made : new_s3nd_handler m k c rates ≡ returned h) (n : ℕ) (limited : 0 < n)
      (fits : n + sharers (pos_part c.upload_max_parallel) ≤ 2 ^ 63)
      (bytes : upload_bwlimit_bytes c ≡ returned (pos n)) where
    pub first-tracker : h.conn_tracker.upload_pace ≡ n
    first-tracker =
        ap (λ t. t.upload_pace) (made-tracker m k c rates made laws n limited fits bytes)
        ∙ set-pace m k c rates made laws n limited fits bytes

    pub conf-bytes : upload_bwlimit_bytes h.conf ≡ returned (pos n)
    conf-bytes = ap upload_bwlimit_bytes (made-semaphore m k c rates made).1 ∙ bytes

    -- From the handler of NewS3ndHandler on, with a semaphore that keeps the laws of its
    -- documentation and a bandwidth limit of n bytes per second, at least 1, where n and
    -- upload_max_parallel, or 1 if that is below, are together at most 2 ^ 63: two requests of n1
    -- and n2 parts that fit upload_max_parallel together can reach a state where both upload and no
    -- update of the rate is under way or to come, but where the recorded rate is still that for the
    -- n1 parts, if this differs from that for all parts, and that from n. The first request reads
    -- the count, is overtaken by the whole update of the second, and then sets its rate.
    pub overtaken_update :
        (n1 n2 p1 p2 : ℕ)
        → 0 < n1
        → n1 + n2 ≤ pos_part c.upload_max_parallel
        → target_pace m (pos n) n1 ≡ returned p1
        → target_pace m (pos n) (n1 + n2) ≡ returned p2
        → p2 ≢ n
        → p1 ≢ p2
        → (s : System m) × Reach m Free h s
          × (s.threads ≡ uploading n2 ∷ uploading n1 ∷ [])
          × All IsSettled s.threads
          × (total units s.threads ≡ n1 + n2)
          × (s.handler.conn_tracker.upload_pace ≡ p1)
    overtaken_update n1 n2 p1 p2 some_parts le t1 t2 new differ =
        let v = made-IsAccounted m k c rates made laws in
        let (i, e1, count1, limit1) =
          room m laws h.parallel_uploads.inner n1 (omega (arith, v.lent, v.limited)) in
        let (j, e2, count2, limit2) =
          room m laws i n2 (omega (arith, v.lent, v.limited, count1, limit1)) in
        let r1 =
          begins-read m h [] [] h n1 n p1 i (next here (arrives n1)) e1 conf-bytes limited
            (omega (arith, count1, some_parts))
            (ap (target_pace m (pos n)) (omega (arith, count1, v.lent)) ∙ t1) in
        let r2 =
          begins-read m h [] (pacing n1 (compares p1) ∷ []) (with_sem i h) n2 n p2 j
            (next r1 (arrives n2)) e2 conf-bytes limited (omega (arith, count1, count2, some_parts))
            (ap (target_pace m (pos n)) (omega (arith, count1, count2, v.lent)) ∙ t2) in
        let r3 =
          updates m h [] (pacing n1 (compares p1) ∷ []) (with_sem j h) n2 p2 r2
            (λ e. new (e ∙ first-tracker)) in
        let r4 = updates m h (uploading n2 ∷ []) [] (with_rate p2 (with_sem j h)) n1 p1 r3 differ in
        (
          record {
            handler = with_rate p1 (with_rate p2 (with_sem j h));
            threads = uploading n2 ∷ uploading n1 ∷ [];
          },
          r4,
          refl,
          (tt, (tt, tt)),
          omega arith,
          refl,
        )

    -- From the handler of NewS3ndHandler on, with a semaphore that keeps the laws of its
    -- documentation and a bandwidth limit of n bytes per second, at least 1, where n and
    -- upload_max_parallel, or 1 if that is below, are together at most 2 ^ 63: a request of n1
    -- parts and a connection can reach a state where the request uploads, its update of the rate
    -- has ended, the socket of the connection has the 32 bits of the rate for n1 parts, and
    -- DialContext has read the rate n from before the request and not set it yet, if the two rates
    -- differ. One move later no update is under way or to come, the rate for n1 parts is recorded,
    -- and the connection is active, but its socket has the 32 bits of n.
    pub overtaken_dial :
        (n1 p1 : ℕ)
        → 0 < n1
        → n1 ≤ pos_part c.upload_max_parallel
        → target_pace m (pos n) n1 ≡ returned p1
        → p1 ≢ n
        → (s t : System m) × Reach m Free h s
          × (s.threads ≡ uploading n1 ∷ setting h.conn_tracker.next n ∷ [])
          × (s.handler.conn_tracker.upload_pace ≡ p1)
          × (s.handler.conn_tracker.max_pacing_rate h.conn_tracker.next ≡ rate_passed p1)
          × Run m (λ p. Unit) s 1 t
          × All IsSettled t.threads
          × (t.handler.conn_tracker.upload_pace ≡ p1)
          × (member h.conn_tracker.next t.handler.conn_tracker.active ≡ true)
          × (t.handler.conn_tracker.max_pacing_rate h.conn_tracker.next ≡ rate_passed n)
    unfolding add_conn
    overtaken_dial n1 p1 some_parts le t1 differ =
        let v = made-IsAccounted m k c rates made laws in
        let (i, e1, count1, limit1) =
          room m laws h.parallel_uploads.inner n1 (omega (arith, v.lent, v.limited)) in
        let added : Handler S = record h { conn_tracker = add_conn h.conn_tracker } in
        let r1 =
          goes m h [] []
            (goes m h [] [] (goes m h [] [] (next here dials) inserts)
              (paced (omega (arith, first-tracker))))
            loads in
        let conn : Phase = setting h.conn_tracker.next h.conn_tracker.upload_pace in
        let r2 =
          begins-read m h [] (conn ∷ []) added n1 n p1 i (next r1 (arrives n1)) e1 conf-bytes
            limited (omega (arith, count1, some_parts))
            (ap (target_pace m (pos n)) (omega (arith, count1, v.lent)) ∙ t1) in
        let r3 =
          updates m h [] (conn ∷ []) (with_sem i added) n1 p1 r2
            (λ e. differ (e ∙ first-tracker)) in
        (
          _,
          _,
          r3,
          ap (λ p. uploading n1 ∷ setting h.conn_tracker.next p ∷ []) first-tracker,
          refl,
          quiet-rates _ h.conn_tracker.next p1 h.conn_tracker.active,
          first (uploading n1 ∷ []) [] refl (sets quiet) tt stop,
          (tt, (tt, tt)),
          refl,
          member-head h.conn_tracker.next h.conn_tracker.active,
          quiet-rate _ h.conn_tracker.next h.conn_tracker.upload_pace
              ∙ ap rate_passed first-tracker,
        )
