-- ===== src/Upload/Concurrent/Refines.antt =====
-- The semaphore of upload/handler.go among concurrent requests keeps the promise of Lock.
use mathlib.Core.List.{append_assoc}
use deliverator.Base.{
  ℕ, ◌+◌, ◌≤◌, ◌≡◌, refl, sym, ap, ◌∙◌, arith, List, [], ◌∷◌, ◌++◌, total, total-append, returned,
}
use deliverator.Base.Int.{pos_part}
use deliverator.Conf.{Conf}
use deliverator.Semaphore.{Msemaphore, Semaphore}
use deliverator.Semaphore.Laws.{IsCounting}
use deliverator.Semaphore.System.{
  Pc, start, refused, blocked, entered, cancelled, holding, finished, try_ok, try_fail,
  count_waiter, grant, cancel, return_held, return_error, release_held, Move as Access,
}
use deliverator.ConnTracker.Tracker.{Sockets}
use deliverator.Upload.Handler.{Handler, new_s3nd_handler}
use deliverator.Upload.Concurrent.{
  Phase, acquiring, pacing, uploading, ended, IsAcquiring, Move, acquires, begins, paces, starts,
  unwinds, releases, rebalances, returns, inserts, unpaced, paced, loads, sets, System, Step,
  arrives, dials, closes, moves, Reach,
}
use deliverator.Upload.Concurrent.Units.{units, IsAccounted}
use deliverator.Upload.Concurrent.Start.{made-accounts}
use deliverator.Upload.Concurrent.Lock.{
  Loans, lent, lend, Promise, nothing, lends, gives_back, loans, loans-among, lent-loans,
}

-- The loan of a goroutine, if it has one.
abbrev pub loan : Phase → List ℕ
loan (acquiring (entered n)) = n ∷ []
loan (acquiring (holding n)) = n ∷ []
loan (pacing n u) = n ∷ []
loan (uploading n) = n ∷ []
loan _ = []

abbrev pub all_loans : List Phase → List ℕ
all_loans [] = []
all_loans (p ∷ ps) = loan p ++ all_loans ps

all_loans-append : (ps qs : List Phase) → all_loans (ps ++ qs) ≡ all_loans ps ++ all_loans qs
all_loans-append [] qs = refl
all_loans-append (p ∷ ps) qs =
    ap (λ xs. loan p ++ xs) (all_loans-append ps qs)
    ∙ sym (append_assoc (loan p) (all_loans ps) (all_loans qs))

total-loan : (p : Phase) → total (λ n. n) (loan p) ≡ units p
total-loan (acquiring (start n)) = refl
total-loan (acquiring (refused n)) = refl
total-loan (acquiring (blocked n)) = refl
total-loan (acquiring (cancelled n)) = refl
total-loan (acquiring finished) = refl
total-loan (acquiring (entered n)) = omega arith
total-loan (acquiring (holding n)) = omega arith
total-loan (pacing n u) = omega arith
total-loan (uploading n) = omega arith
total-loan ended = refl
total-loan _ = refl

total-all_loans : (ps : List Phase) → total (λ n. n) (all_loans ps) ≡ total units ps
total-all_loans [] = refl
total-all_loans (p ∷ ps) =
    omega (arith, total-append (λ n. n) (loan p) (all_loans ps), total-loan p, total-all_loans ps)

-- What a move does to the loan of its goroutine; `room` says that there is room for units.
data Shift (room : ℕ → Type 0) (p q : Phase) : Type 0 where
  keeps : loan q ≡ loan p → Shift room p q
  gets : (n : ℕ) → room n → loan p ≡ [] → loan q ≡ n ∷ [] → Shift room p q
  gives : (n : ℕ) → loan p ≡ n ∷ [] → loan q ≡ [] → Shift room p q

-- The loans of all goroutines.
abbrev pub view : {S : Type 0} (m : Msemaphore S) → System m → Loans
view m s = loans (all_loans s.threads)

module _ {S : Type 0} (m : Msemaphore S) (laws : IsCounting m) where
  abbrev Room : S → ℕ → Type 0
  Room s n = m.get_count s + n ≤ m.get_limit s

  Access-Shift :
      {s t : Semaphore S} {p q : Pc}
      → Access m s p t q
      → IsAcquiring p
      → Shift (Room s.inner) (acquiring p) (acquiring q)
  Access-Shift {s = s} (try_ok {n} {i} e) a = gets n (laws.entered s.inner i n e).2 refl refl
  Access-Shift (try_fail e) a = keeps refl
  Access-Shift count_waiter a = keeps refl
  Access-Shift {s = s} (grant {n} {i} e) a = gets n (laws.entered s.inner i n e).2 refl refl
  Access-Shift cancel a = keeps refl
  Access-Shift return_held a = keeps refl
  Access-Shift return_error a = keeps refl
  Access-Shift (release_held e) a = absurd a

  Move-Shift :
      {h k : Handler S} {p q : Phase} → Move m h p k q → Shift (Room h.parallel_uploads.inner) p q
  Move-Shift (acquires i mv) = Access-Shift mv i
  Move-Shift begins = keeps refl
  Move-Shift (paces c) = keeps refl
  Move-Shift starts = keeps refl
  Move-Shift unwinds = keeps refl
  Move-Shift (releases {n} e) = gives n refl refl
  Move-Shift (rebalances c) = keeps refl
  Move-Shift returns = keeps refl
  Move-Shift inserts = keeps refl
  Move-Shift (unpaced e) = keeps refl
  Move-Shift (paced e) = keeps refl
  Move-Shift loads = keeps refl
  Move-Shift (sets s) = keeps refl

  around :
      (before after : List Phase) (p : Phase)
      → all_loans (before ++ p ∷ after) ≡ all_loans before ++ (loan p ++ all_loans after)
  around before after p = all_loans-append before (p ∷ after)

  with-loan :
      (before after : List Phase) (p : Phase) (xs : List ℕ)
      → loan p ≡ xs
      → loans (all_loans (before ++ p ∷ after))
        ≡ loans (all_loans before ++ (xs ++ all_loans after))
  with-loan before after p xs e =
      ap loans (around before after p ∙ ap (λ ys. all_loans before ++ (ys ++ all_loans after)) e)

  module _ (limit : ℕ) where
    lent-view :
        (s : System m)
        → IsAccounted m laws limit s
        → lent (view m s) ≡ m.get_count s.handler.parallel_uploads.inner
    lent-view s v = lent-loans (all_loans s.threads) ∙ total-all_loans s.threads ∙ sym v.lent

    Step-Promise :
        {P : List Phase → Type 0} {s t : System m}
        → Step m P s t
        → IsAccounted m laws limit s
        → Promise limit (view m s) (view m t)
    Step-Promise (arrives n) v = nothing refl
    Step-Promise dials v = nothing refl
    Step-Promise (closes k c lt) v = nothing refl
    Step-Promise {s = s} (moves before after {p} {q} e free mv) v =
        let old = ap (λ ts. loans (all_loans ts)) e in
        elim (Move-Shift mv) [
          | keeps k ↦
              nothing (with-loan before after q _ k ∙ sym (old ∙ with-loan before after p _ refl))
          | gets n room none_yet now ↦ lends n (omega (arith, lent-view s v, room, v.limited)) (
              with-loan before after q _ now
              ∙ loans-among (all_loans before) (all_loans after) n
              ∙ ap (lend n) (sym (old ∙ with-loan before after p _ none_yet)))
          | gives n had now ↦ gives_back n (
              old
              ∙ with-loan before after p _ had
              ∙ loans-among (all_loans before) (all_loans after) n
              ∙ ap (lend n) (sym (with-loan before after q _ now)))
        ]

-- From the handler of NewS3ndHandler on, with a semaphore that keeps the laws of its documentation,
-- in every interleaving: the units that the semaphore counts are those of the loans of the
-- requests, in whatever order these came; and each step leaves the loans as they are, or makes one
-- that fits upload_max_parallel together with the others, or gives one back as it was made.
pub made-Promise :
    {S : Type 0} (m : Msemaphore S) (laws : IsCounting m) (k : Sockets) (c : Conf) (rates : ℕ → ℕ)
    {h : Handler S}
    → new_s3nd_handler m k c rates ≡ returned h
    → {P : List Phase → Type 0} {s t : System m} → Reach m P h s
    → Step m P s t
    → (lent (view m s) ≡ m.get_count s.handler.parallel_uploads.inner)
      × Promise (pos_part c.upload_max_parallel) (view m s) (view m t)
made-Promise m laws k c rates made {s = s} r st =
    let v = made-accounts m k c rates made laws r in
    (lent-view m laws _ s v, Step-Promise m laws _ st v)
