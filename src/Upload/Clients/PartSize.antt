-- ===== src/Upload/Clients/PartSize.antt =====
-- The part size of the upload manager of upload/handler.go, and the number of parts of a request.
use deliverator.Base.{
  ℕ, ◌+◌, ◌*◌, ◌^◌, ◌≤◌, ◌<◌, ◌≡◌, ◌≢◌, ◌⊎◌, ap, ◌∙◌, Option, Option-cases, inl, inr, String, none,
  Outcome, returned,
}
use deliverator.Base.Int.{pos}
use deliverator.Errors.{GoError, error_text}
use deliverator.Conf.{Conf, started, exited}
use deliverator.Semaphore.{Msemaphore}
use deliverator.ConnTracker.Tracker.{Sockets}
use deliverator.Upload.Task.{Task}
use deliverator.Upload.Parse.{Form, size, drop_slash, parse_request}
use deliverator.Upload.Parse.Validity.{IsAddressed, parsed}
use deliverator.Upload.Parse.Parts.{parse_request_parts}
use deliverator.Upload.Handler.{Handler, new_s3nd_handler}
use deliverator.Upload.Concurrent.Start.{made-semaphore}
use deliverator.Upload.Clients.{Transport, Clients, new_clients, start_handler}

exited-ne-started : {A : Type 0} (k : ℕ) (m : String) (a : A) → exited k m ≢ started a
exited-ne-started k m a h = cc

started-pair :
    {A B : Type 0} (a : A) (b : B) (p : A × B) → started (a, b) ≡ started p → (a ≡ p.0) × (b ≡ p.1)
started-pair a b p e =
    let q = ap (λ s. elim s [ started x ↦ x | exited k m ↦ (a, b) ]) e in
    (ap (λ x. x.0) q, ap (λ x. x.1) q)

module _ {S : Type 0} (m : Msemaphore S) (k : Sockets) (rates : ℕ → ℕ) (t : Transport)
    (load_error : Option GoError) (c : Conf) where
  pub start_handler-started :
      (cl : Clients) (o : Outcome (Handler S))
      → start_handler m k rates t load_error c ≡ started (cl, o)
      → (load_error ≡ none) × (new_clients c t ≡ cl) × (new_s3nd_handler m k c rates ≡ o)
  unfolding start_handler
  start_handler-started cl o e = elim (Option-cases load_error) [
    | inl n ↦
        let q = started-pair (new_clients c t) (new_s3nd_handler m k c rates) (cl, o) (rw n at e) in
        (n, q.0, q.1)
    | inr (x, s) ↦ absurd (exited-ne-started 1 (error_text x) (cl, o) (rw s at e))
  ]

  module _ {cl : Clients} {h : Handler S}
      (made : start_handler m k rates t load_error c ≡ started (cl, returned h)) where
    pub made-handler : new_s3nd_handler m k c rates ≡ returned h
    made-handler = (start_handler-started cl (returned h) made).2

    -- With p the part size that NewS3ndHandler gives to its upload manager: for an addressed request
    -- whose URL has a key and a file of n bytes, where p is at least 1 and n + p at most 2 ^ 63,
    -- parseRequest succeeds with a number q of parts, at least 1, such that q parts of size p hold the
    -- file, and fewer would not, or q is 1. Nothing is said of the parts that the manager makes.
    pub least_parts :
        (f : Form) {F : Type 0} (u : Task F) (a : IsAddressed f) (key : String) (n p : ℕ)
        → drop_slash a.uri.path ≡ returned key
        → f.stat (f.post_form_value "file") ≡ size (pos n)
        → cl.part_size ≡ pos p
        → 0 < p
        → n + p ≤ 2 ^ 63
        → (q : ℕ) × (parse_request f h.conf u ≡ returned (parsed f u a key (pos n) (pos q), none))
          × (1 ≤ q)
          × (n ≤ q * p)
          × ((q ≡ 1) ⊎ (q * p < n + p))
    unfolding new_clients
    least_parts f u a key n p hk hs hp pos_p fits =
        let same : new_clients c t ≡ cl = (start_handler-started cl (returned h) made).1 in
        let (q, e, one, holds, least) =
          parse_request_parts f c u a key n p hk hs (ap (λ x. x.part_size) same ∙ hp) pos_p fits in
        (
          q,
          ap (λ d. parse_request f d u) (made-semaphore m k c rates made-handler).1 ∙ e,
          one,
          holds,
          least,
        )
