-- ===== src/Upload/Concurrent/Units.antt =====
-- The units of the semaphore while many requests to upload/handler.go are served at once.
use deliverator.Base.{
  ℕ, ◌+◌, ◌%◌, ◌^◌, ◌≤◌, ◌≡◌, refl, sym, subst, ◌≢◌, ap, ◌∙◌, arith, some, none, List, [], ◌∷◌,
  total, total-append, Option-cases, inl, inr,
}
use deliverator.Semaphore.{Msemaphore, Semaphore, release}
use deliverator.Semaphore.Laws.{IsCounting}
use deliverator.Semaphore.Invariant
use deliverator.Semaphore.Invariant.{IsMoved, Move-IsMoved}
use deliverator.Upload.Handler.{Handler}
use deliverator.Upload.Concurrent.{
  Update, Phase, acquiring, pacing, uploading, rebalancing, reads, Change, unlimited, none_active,
  some_active, divide, crash, same, differs, store, apply, Move, acquires, begins, paces, starts,
  unwinds, releases, rebalances, returns, inserts, unpaced, paced, loads, sets, System, Step,
  arrives, dials, closes, moves, Reach, here, next,
}

-- The units that a goroutine has, and 1 for one that is counted as a waiter.
abbrev pub units : Phase → ℕ
units (acquiring p) = Invariant.units p
units (pacing n u) = n
units (uploading n) = n
units _ = 0

abbrev pub waits : Phase → ℕ
waits (acquiring p) = Invariant.waits p
waits _ = 0

none-ne-some : {A : Type 0} (a : A) → none ≢ some a
none-ne-some a e = cc

some-injective : {A : Type 0} {a b : A} → some a ≡ some b → a ≡ b
some-injective e = cc

module _ {S : Type 0} (m : Msemaphore S) where
  pub Change-keeps :
      {h k : Handler S} {u v : Update}
      → Change m h u k v
      → (k.parallel_uploads ≡ h.parallel_uploads)
        × (k.conf ≡ h.conf)
        × (k.conn_tracker.active ≡ h.conn_tracker.active)
        × (k.conn_tracker.next ≡ h.conn_tracker.next)
  Change-keeps (unlimited e) = (refl, refl, refl, refl)
  Change-keeps (none_active e n z) = (refl, refl, refl, refl)
  Change-keeps (some_active e n z) = (refl, refl, refl, refl)
  Change-keeps (divide e d) = (refl, refl, refl, refl)
  Change-keeps (crash e d) = (refl, refl, refl, refl)
  Change-keeps (same e) = (refl, refl, refl, refl)
  Change-keeps (differs n) = (refl, refl, refl, refl)
  Change-keeps store = (refl, refl, refl, refl)
  Change-keeps (apply s) = (refl, refl, refl, refl)

  released :
      (n : ℕ) (s t : Semaphore S)
      → release m n s ≡ some t
      → (i : S) × (m.leave s.inner n ≡ some i) × (t ≡ record s { inner = i })
  released n s t e = elim (Option-cases (m.leave s.inner n)) [
    | inl x ↦ absurd (none-ne-some t (rw (x, release) at e))
    | inr (i, x) ↦ (i, x, sym (some-injective (rw (x, release) at e)))
  ]

  module _ (laws : IsCounting m) (limit : ℕ) where
    pub record IsAccounted (s : System m) : Type 0 where
      pub lent : m.get_count s.handler.parallel_uploads.inner ≡ total units s.threads
      pub limited : m.get_limit s.handler.parallel_uploads.inner ≡ limit
      pub within : m.get_count s.handler.parallel_uploads.inner ≤ limit
      pub counted : s.handler.parallel_uploads.waiters ≡ total waits s.threads % 2 ^ 32

    -- A move changes the count by the units that its goroutine gets or gives back.
    pub record Accounts (s : Semaphore S) (p : Phase) (t : Semaphore S) (q : Phase) : Type 0 where
      pub lent : m.get_count t.inner + units p ≡ m.get_count s.inner + units q
      limited : m.get_limit t.inner ≡ m.get_limit s.inner
      within : m.get_count s.inner ≤ m.get_limit s.inner → m.get_count t.inner ≤ m.get_limit s.inner
      counted :
          (rest : ℕ) → s.waiters ≡ (rest + waits p) % 2 ^ 32 → t.waiters ≡ (rest + waits q) % 2 ^ 32

    -- The semaphore is left alone, by a goroutine that keeps its units.
    keeps :
        (s t : Semaphore S) (p q : Phase)
        → t ≡ s
        → units q ≡ units p
        → waits q ≡ waits p
        → Accounts s p t q
    keeps s t p q e u w =
        subst (λ x. Accounts s p x q) (sym e)
          (record {
            lent = omega (arith, u);
            limited = refl;
            within = λ h. h;
            counted = λ rest h. omega (arith, w, h);
          })

    pub Move-Accounts :
        {h k : Handler S} {p q : Phase}
        → Move m h p k q
        → Accounts h.parallel_uploads p k.parallel_uploads q
    Move-Accounts (acquires i mv) =
        let v = Move-IsMoved m laws limit mv in
        record { lent = v.lent; limited = v.limited; within = v.within; counted = v.counted }
    Move-Accounts begins = keeps _ _ _ _ refl refl refl
    Move-Accounts (paces c) = keeps _ _ _ _ (Change-keeps c).0 refl refl
    Move-Accounts starts = keeps _ _ _ _ refl refl refl
    Move-Accounts unwinds = keeps _ _ _ _ refl refl refl
    Move-Accounts {h = h} (releases {n} {sem} e) =
        let (i, x, eq) = released n h.parallel_uploads sem e in
        subst (λ t. Accounts h.parallel_uploads (uploading n) t (rebalancing reads)) (sym eq)
          (ground (arith, laws.left h.parallel_uploads.inner i n x))
    Move-Accounts (rebalances c) = keeps _ _ _ _ (Change-keeps c).0 refl refl
    Move-Accounts returns = keeps _ _ _ _ refl refl refl
    Move-Accounts inserts = keeps _ _ _ _ refl refl refl
    Move-Accounts (unpaced e) = keeps _ _ _ _ refl refl refl
    Move-Accounts (paced e) = keeps _ _ _ _ refl refl refl
    Move-Accounts loads = keeps _ _ _ _ refl refl refl
    Move-Accounts (sets s) = keeps _ _ _ _ refl refl refl

    pub Step-IsAccounted :
        {P : List Phase → Type 0} {s t : System m} → Step m P s t → IsAccounted s → IsAccounted t
    Step-IsAccounted (arrives n) v = omega arith
    Step-IsAccounted dials v = omega arith
    Step-IsAccounted (closes k c lt) v = record {
      lent = v.lent;
      limited = v.limited;
      within = v.within;
      counted = v.counted;
    }
    Step-IsAccounted {s = s} (moves before after {p} {q} {h} e free mv) v =
        let moved = Move-Accounts mv in
        let lent_before = ap (total units) e ∙ total-append units before (p ∷ after) in
        let waits_before = ap (total waits) e ∙ total-append waits before (p ∷ after) in
        let rest : ℕ = total waits before + total waits after in
        record {
          lent =
              omega (arith, moved.lent, v.lent, lent_before, total-append units before (q ∷ after));
          limited = moved.limited ∙ v.limited;
          within = omega (arith, moved.within, v.within, v.limited);
          counted = omega (
            arith,
            moved.counted rest,
            v.counted,
            waits_before,
            total-append waits before (q ∷ after),
          );
        }

    pub Reach-accounts :
        {P : List Phase → Type 0} {h : Handler S}
        → IsAccounted (record { handler = h; threads = [] })
        → {s : System m} → Reach m P h s
        → IsAccounted s
    Reach-accounts v here = v
    Reach-accounts v (next r st) = Step-IsAccounted st (Reach-accounts v r)

module _ {S : Type 0} (m : Msemaphore S) where
  Move-conf : {h k : Handler S} {p q : Phase} → Move m h p k q → k.conf ≡ h.conf
  Move-conf (acquires i mv) = refl
  Move-conf begins = refl
  Move-conf (paces ch) = (Change-keeps m ch).1
  Move-conf starts = refl
  Move-conf unwinds = refl
  Move-conf (releases r) = refl
  Move-conf (rebalances ch) = (Change-keeps m ch).1
  Move-conf returns = refl
  Move-conf inserts = refl
  Move-conf (unpaced z) = refl
  Move-conf (paced z) = refl
  Move-conf loads = refl
  Move-conf (sets s) = refl

  Step-conf :
      {P : List Phase → Type 0} {s t : System m} → Step m P s t → t.handler.conf ≡ s.handler.conf
  Step-conf (arrives n) = refl
  Step-conf dials = refl
  Step-conf (closes k d lt) = refl
  Step-conf (moves before after e free mv) = Move-conf mv

  pub Reach-conf :
      {P : List Phase → Type 0} {h : Handler S} {s : System m}
      → Reach m P h s
      → s.handler.conf ≡ h.conf
  Reach-conf here = refl
  Reach-conf (next r st) = Step-conf st ∙ Reach-conf r
