-- ===== src/Upload/Concurrent/Alone/Runs.antt =====
-- Runs of one goroutine of the concurrent handler of upload/handler.go, for each operation.
use deliverator.Base.{
  ℕ, String, ◌≡◌, ◌≢◌, sym, subst, ap, ◌∙◌, arith, returned, panicked, >>=-eq-returned,
  returned-injective, Bool-cases, Option-cases, inl, inr, ltb, ◌==◌, ==_iff,
}
use deliverator.Base.Int.{ℤ, uint64, pos, eq_ℤ}
use deliverator.Util.{rounded}
use deliverator.Util.Bounds.{div_ceil-returned}
use deliverator.Conf.{upload_bwlimit_bytes}
use deliverator.Semaphore.{Msemaphore, release}
use deliverator.ConnTracker.Tracker.{
  Sockets, add_conn, conn, pace_new, dial_context, set_pacing_rate,
}
use deliverator.Upload.Handler.{Handler, target_pace, update_pacing_rate, finish}
use deliverator.Upload.Handler.Pacing.{target_pace-none, target_pace-divide, pos-not_zero}
use deliverator.Upload.Concurrent.{
  reads, compares, done, Phase, uploading, rebalancing, connected, ended, unlimited, none_active,
  some_active, divide, same, differs, store, apply, releases, rebalances, returns, inserts, unpaced,
  paced, loads, sets,
}
use deliverator.Upload.Concurrent.Alone.Finishes.{is-zero, not-zero, not-eq, Alone, then_moves}

module _ {S : Type 0} (m : Msemaphore S) where
  panicked-not-returned : (msg : String) (h : Handler S) → panicked msg ≢ returned h
  panicked-not-returned msg h e = cc

  module _ {h : Handler S} {p : Phase} (s : Sockets) where
    -- Runs that go on as the operations do.
    compares-runs :
        {k : Handler S} (n : ℕ)
        → Alone m h p k (rebalancing (compares n))
        → Alone m h p
            (record k { conn_tracker = (set_pacing_rate s n k.conn_tracker).0 })
            (rebalancing done)
    unfolding set_pacing_rate
    compares-runs {k} n a = elim (Bool-cases (n == k.conn_tracker.upload_pace)) [
      | inl e ↦
          rw (set_pacing_rate, e)
            (then_moves a (rebalances (same ((==_iff n k.conn_tracker.upload_pace).0 e))))
      | inr e ↦
          rw (set_pacing_rate, e)
            (then_moves
              (then_moves
                (then_moves a (rebalances (differs (not-eq n k.conn_tracker.upload_pace e))))
                (rebalances store))
              (rebalances (apply s)))
    ]

    divides-runs :
        {k : Handler S} (limit : ℤ) (pace : ℕ)
        → Alone m h p k (rebalancing reads)
        → upload_bwlimit_bytes k.conf ≡ returned limit
        → limit ≢ pos 0
        → target_pace m limit (m.get_count k.parallel_uploads.inner) ≡ returned pace
        → Alone m h p k (rebalancing (compares pace))
    divides-runs {k} limit pace a b n t =
        elim (Bool-cases (m.get_count k.parallel_uploads.inner == 0)) [
          | inl e ↦
              let z = (==_iff (m.get_count k.parallel_uploads.inner) 0).0 e in
              let eq : uint64 limit ≡ pace =
                returned-injective
                  (sym (target_pace-none m limit) ∙ ap (target_pace m limit) (sym z) ∙ t) in
              subst (λ x. Alone m h p k (rebalancing (compares x))) eq
                (then_moves a (rebalances (none_active b n z)))
          | inr e ↦
              let ne = not-eq (m.get_count k.parallel_uploads.inner) 0 e in
              let d =
                div_ceil-returned limit (pos (m.get_count k.parallel_uploads.inner))
                  (pos-not_zero _ ne) in
              let eq : uint64 (rounded limit (pos (m.get_count k.parallel_uploads.inner))) ≡ pace =
                returned-injective (sym (target_pace-divide m limit _ _ d) ∙ t) in
              subst (λ x. Alone m h p k (rebalancing (compares x))) eq
                (then_moves (then_moves a (rebalances (some_active b n ne)))
                  (rebalances (divide b d)))
        ]

    pub reads-runs :
        {k : Handler S} (l : Handler S)
        → Alone m h p k (rebalancing reads)
        → update_pacing_rate m s k ≡ returned l
        → Alone m h p l ended
    unfolding update_pacing_rate
    reads-runs {k} l a e =
        let (limit, b, e1) = >>=-eq-returned (upload_bwlimit_bytes k.conf) _ e in
        elim (Bool-cases (eq_ℤ limit (pos 0))) [
          | inl z ↦
              subst (λ x. Alone m h p x ended) (returned-injective (rw z at e1))
                (then_moves
                  (then_moves a (rebalances (unlimited (b ∙ ap returned (is-zero limit z)))))
                  returns)
          | inr z ↦
              let (pace, t, e2) = >>=-eq-returned (target_pace m limit _) _ (rw z at e1) in
              subst (λ x. Alone m h p x ended) (returned-injective e2)
                (then_moves (compares-runs pace (divides-runs limit pace a b (not-zero limit z) t))
                  returns)
        ]

    pub uploading-runs :
        {k : Handler S} (n : ℕ) (l : Handler S)
        → Alone m h p k (uploading n)
        → finish m n s k ≡ returned l
        → Alone m h p l ended
    unfolding finish
    uploading-runs {k} n l a e = elim (Option-cases (release m n k.parallel_uploads)) [
      | inl r ↦ absurd (panicked-not-returned _ l (rw (finish, r) at e))
      | inr (sem, r) ↦ reads-runs l (then_moves a (releases r)) (rw (finish, r) at e)
    ]

    pub connected-runs :
        {k : Handler S}
        → Alone m h p k connected
        → Alone m h p (record k { conn_tracker = (dial_context s conn k.conn_tracker).0 }) ended
    unfolding dial_context pace_new add_conn
    connected-runs {k} a = elim (Bool-cases (ltb 0 k.conn_tracker.upload_pace)) [
      | inl e ↦
          rw (dial_context, e, pace_new)
            (then_moves
              (then_moves (then_moves (then_moves a inserts) (paced (ground arith))) loads)
              (sets s))
      | inr e ↦ rw (dial_context, e) (then_moves (then_moves a inserts) (unpaced (ground arith)))
    ]
