-- ===== src/Upload/Concurrent/Progress.antt =====
-- While a goroutine of upload/handler.go has not ended, one can move without giving up in the queue.
use deliverator.Base.{
  ℕ, ◌≤◌, ◌≡◌, ◌≢◌, ◌⊎◌, inl, inr, refl, subst, ap, ◌∙◌, arith, some, List, [], ◌∷◌, ◌++◌, All,
  All-split, total, returned, Bool-cases, Outcome-cases, Option-cases, ◌==◌, ==_iff, ltb,
}
use deliverator.Base.Int.{pos, eq_ℤ}
use deliverator.Util.{div_ceil}
use deliverator.Util.Bounds.{div_ceil-returned}
use deliverator.Conf.{Conf, upload_bwlimit_bytes}
use deliverator.Semaphore.{Msemaphore, Semaphore, release}
use deliverator.Semaphore.Laws.{IsCounting, room}
use deliverator.Semaphore.System.{
  Pc, start, refused, blocked, entered, cancelled, holding, finished, try_ok, try_fail,
  count_waiter, grant, return_held, return_error,
}
use deliverator.Upload.Handler.{Handler}
use deliverator.Upload.Handler.Returns.{Returns}
use deliverator.Upload.Concurrent.{
  Update, reads, divides, crashed, compares, stores, applies, done, Phase, acquiring, pacing,
  uploading, rebalancing, connected, inserted, rating, setting, ended, Change, unlimited,
  none_active, some_active, divide, crash, same, differs, store, apply, Move, acquires, begins,
  paces, starts, unwinds, releases, rebalances, returns, inserts, unpaced, paced, loads, sets,
  System,
}
use deliverator.Upload.Concurrent.Alone.{quiet, is-zero, not-zero, not-eq}
use deliverator.Upload.Concurrent.Units.{units, IsAccounted}

-- A goroutine that has ended: with an answer, with a connection, or with a panic.
abbrev pub IsFinal : Phase → Type 0
IsFinal (acquiring finished) = Unit
IsFinal ended = Unit
IsFinal (rebalancing crashed) = Unit
IsFinal _ = ⊥

abbrev IsWaiting : Phase → Type 0
IsWaiting (acquiring (blocked n)) = Unit
IsWaiting p = IsFinal p

-- Its context has not ended.
abbrev pub IsPatient : Phase → Type 0
IsPatient (acquiring (cancelled n)) = ⊥
IsPatient _ = Unit

-- It asks for no more units than there are.
abbrev pub FitsIn : ℕ → Pc → Type 0
FitsIn most (start n) = n ≤ most
FitsIn most (refused n) = n ≤ most
FitsIn most (blocked n) = n ≤ most
FitsIn most _ = Unit

abbrev pub IsFitting : ℕ → Phase → Type 0
IsFitting most (acquiring p) = FitsIn most p
IsFitting most _ = Unit

waiting-units : (ts : List Phase) → All IsWaiting ts → total units ts ≡ 0
waiting-units [] w = refl
waiting-units (acquiring (blocked n) ∷ ts) w = omega (arith, waiting-units ts w.1)
waiting-units (acquiring finished ∷ ts) w = omega (arith, waiting-units ts w.1)
waiting-units (rebalancing crashed ∷ ts) w = omega (arith, waiting-units ts w.1)
waiting-units (ended ∷ ts) w = omega (arith, waiting-units ts w.1)
waiting-units (_ ∷ ts) w = absurd w.0

-- Everyone has ended, or someone is blocked.
abbrev EndedOrBlocked : List Phase → Type 0
EndedOrBlocked ts =
    All IsFinal ts
    ⊎ ((before after : List Phase) × (n : ℕ) × (ts ≡ before ++ acquiring (blocked n) ∷ after))

after-final :
    (p : Phase) (ts : List Phase) → IsFinal p → EndedOrBlocked ts → EndedOrBlocked (p ∷ ts)
after-final p ts f (inl fs) = inl (f, fs)
after-final p ts f (inr (before, after, n, e)) = inr (p ∷ before, after, n, ap (λ x. p ∷ x) e)

ended-or-blocked : (ts : List Phase) → All IsWaiting ts → EndedOrBlocked ts
ended-or-blocked [] w = inl tt
ended-or-blocked (acquiring (blocked n) ∷ ts) w = inr ([], ts, n, refl)
ended-or-blocked (acquiring finished ∷ ts) w =
    after-final (acquiring finished) ts tt (ended-or-blocked ts w.1)
ended-or-blocked (rebalancing crashed ∷ ts) w =
    after-final (rebalancing crashed) ts tt (ended-or-blocked ts w.1)
ended-or-blocked (ended ∷ ts) w = after-final ended ts tt (ended-or-blocked ts w.1)
ended-or-blocked (_ ∷ ts) w = absurd w.0

bytes-Returns : (c : Conf) → Returns (upload_bwlimit_bytes c)
unfolding upload_bwlimit_bytes
bytes-Returns c = (_, div_ceil-returned c.upload_bwlimit.value (pos 8) (λ e. cc))

module _ {S : Type 0} (m : Msemaphore S) where
  -- A move of one goroutine that does not give up.
  abbrev pub CanMove : Handler S → Phase → Type 0
  CanMove h p = (q : Phase) × (k : Handler S) × Move m h p k q × IsPatient q

  abbrev CanChange : Handler S → Update → Type 0
  CanChange h u = (v : Update) × (k : Handler S) × Change m h u k v

  update-CanChange : (h : Handler S) (u : Update) → u ≢ done → u ≢ crashed → CanChange h u
  update-CanChange h reads ne nc =
      let (limit, bytes) = bytes-Returns h.conf in
      elim (Bool-cases (eq_ℤ limit (pos 0))) [
        | inl z ↦ (done, h, unlimited (bytes ∙ ap returned (is-zero limit z)))
        | inr z ↦ elim (Bool-cases (m.get_count h.parallel_uploads.inner == 0)) [
          | inl e ↦ (_, h, none_active bytes (not-zero limit z) ((==_iff _ 0).0 e))
          | inr e ↦ (divides, h, some_active bytes (not-zero limit z) (not-eq _ 0 e))
        ]
      ]
  update-CanChange h divides ne nc =
      let (limit, bytes) = bytes-Returns h.conf in
      elim (Outcome-cases (div_ceil limit (pos (m.get_count h.parallel_uploads.inner)))) [
        | inl (share, e) ↦ (_, h, divide bytes e)
        | inr (msg, e) ↦ (crashed, h, crash bytes e)
      ]
  update-CanChange h (compares p) ne nc = elim (Bool-cases (p == h.conn_tracker.upload_pace)) [
    | inl e ↦ (done, h, same ((==_iff p h.conn_tracker.upload_pace).0 e))
    | inr e ↦ (stores p, h, differs (not-eq p h.conn_tracker.upload_pace e))
  ]
  update-CanChange h (stores p) ne nc = (applies p, _, store)
  update-CanChange h (applies p) ne nc = (done, _, apply quiet)
  update-CanChange h done ne nc = absurd (ne refl)
  update-CanChange h crashed ne nc = absurd (nc refl)

  pacing-CanMove : (h : Handler S) (n : ℕ) (u : Update) → CanMove h (pacing n u)
  pacing-CanMove h n done = (uploading n, h, starts, tt)
  pacing-CanMove h n crashed = (uploading n, h, unwinds, tt)
  pacing-CanMove h n u =
      let (v, k, c) = update-CanChange h u (λ e. cc) (λ e. cc) in (pacing n v, k, paces c, tt)

  rebalancing-CanMove :
      (h : Handler S) (u : Update) → IsWaiting (rebalancing u) ⊎ CanMove h (rebalancing u)
  rebalancing-CanMove h done = inr (ended, h, returns, tt)
  rebalancing-CanMove h crashed = inl tt
  rebalancing-CanMove h u =
      let (v, k, c) = update-CanChange h u (λ e. cc) (λ e. cc) in
      inr (rebalancing v, k, rebalances c, tt)

  pub releases-left :
      (n : ℕ) (s : Semaphore S) (i : S)
      → m.leave s.inner n ≡ some i
      → release m n s ≡ some (record s { inner = i })
  releases-left n s i e = rw (release, e)

  module _ (laws : IsCounting m) where
    can_move :
        (h : Handler S) (p : Phase)
        → units p ≤ m.get_count h.parallel_uploads.inner
        → IsWaiting p ⊎ CanMove h p
    can_move h (acquiring (start n)) le = elim (Option-cases (m.enter h.parallel_uploads.inner n)) [
      | inl e ↦ inr (acquiring (refused n), _, acquires tt (try_fail e), tt)
      | inr (i, e) ↦ inr (acquiring (holding n), _, acquires tt (try_ok e), tt)
    ]
    can_move h (acquiring (refused n)) le =
        inr (acquiring (blocked n), _, acquires tt count_waiter, tt)
    can_move h (acquiring (blocked n)) le = inl tt
    can_move h (acquiring (entered n)) le =
        inr (acquiring (holding n), _, acquires tt return_held, tt)
    can_move h (acquiring (cancelled n)) le =
        inr (acquiring finished, _, acquires tt return_error, tt)
    can_move h (acquiring (holding n)) le = inr (pacing n reads, h, begins, tt)
    can_move h (acquiring finished) le = inl tt
    can_move h (pacing n u) le = inr (pacing-CanMove h n u)
    can_move h (uploading n) le =
        let (i, e) = laws.leaves h.parallel_uploads.inner n le in
        inr (rebalancing reads, _, releases (releases-left n h.parallel_uploads i e), tt)
    can_move h (rebalancing u) le = rebalancing-CanMove h u
    can_move h connected le = inr (inserted h.conn_tracker.next, _, inserts, tt)
    can_move h (inserted c) le = elim (Bool-cases (ltb 0 h.conn_tracker.upload_pace)) [
      | inl e ↦ inr (rating c, h, paced (ground arith), tt)
      | inr e ↦ inr (ended, h, unpaced (ground arith), tt)
    ]
    can_move h (rating c) le = inr (setting c h.conn_tracker.upload_pace, h, loads, tt)
    can_move h (setting c p) le = inr (ended, _, sets quiet, tt)
    can_move h ended le = inl tt

    -- The first goroutine that can move, or all are waiting.
    abbrev pub Finds : Handler S → List Phase → Type 0
    Finds h ts =
        (before after : List Phase) × (p : Phase) × (ts ≡ before ++ p ∷ after) × CanMove h p

    find :
        (h : Handler S) (ts : List Phase)
        → total units ts ≤ m.get_count h.parallel_uploads.inner
        → All IsWaiting ts ⊎ Finds h ts
    find h [] le = inl tt
    find h (p ∷ ts) le = elim (can_move h p (omega arith)) [
      | inr c ↦ inr ([], ts, p, refl, c)
      | inl w ↦ elim (find h ts (omega arith)) [
        | inl ws ↦ inl (w, ws)
        | inr (before, after, q, e, c) ↦ inr (p ∷ before, after, q, ap (λ x. p ∷ x) e, c)
      ]
    ]

    module _ (most : ℕ) where
      grants :
          (s : System m) (before after : List Phase) (n : ℕ)
          → IsAccounted m laws most s
          → All IsWaiting s.threads
          → n ≤ most
          → CanMove s.handler (acquiring (blocked n))
      grants s before after n v ws le =
          let (i, e, _, _) =
            room m laws s.handler.parallel_uploads.inner n
              (omega (arith, v.lent, v.limited, waiting-units s.threads ws)) in
          (acquiring (entered n), _, acquires tt (grant e), tt)

      pub progress :
          (s : System m)
          → IsAccounted m laws most s
          → All (IsFitting most) s.threads
          → All IsFinal s.threads ⊎ Finds s.handler s.threads
      progress s v fits = elim (find s.handler s.threads (omega (arith, v.lent))) [
        | inr f ↦ inr f
        | inl ws ↦ elim (ended-or-blocked s.threads ws) [
          | inl fs ↦ inl fs
          | inr (before, after, n, e) ↦
              let (_, fit) =
                All-split (IsFitting most) before (acquiring (blocked n) ∷ after)
                  (subst (All (IsFitting most)) e fits) in
              inr (before, after, acquiring (blocked n), e, grants s before after n v ws fit.0)
        ]
      ]
