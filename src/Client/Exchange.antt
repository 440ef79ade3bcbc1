-- ===== src/Client/Exchange.antt =====
-- The client of client/client.go: when a call succeeds.
use deliverator.Base.{
  subst, sym, ◌∙◌, ℕ, ◌≡◌, ◌≢◌, ◌↔◌, ap, refl, arith, String, none, some, ◌==◌, if◌then◌else◌,
  Option-cases, inl, inr, ◌⊎◌,
}
use deliverator.Errors.{GoError}
use deliverator.Upload.Task.{Url}
use deliverator.Upload.Serve.{RequestStatus}
use deliverator.Client.{
  decode, Fallible, err, ok, Reply, HttpRequest, Net, Client, Result, exchange, upload_request,
  upload,
}

Fallible-cases :
    {A : Type 0} (x : Fallible A) → ((e : GoError) × (x ≡ err e)) ⊎ ((a : A) × (x ≡ ok a))
Fallible-cases (err e) = inl (e, refl)
Fallible-cases (ok a) = inr (a, refl)

module _ (net : Net) {A : Type 0} (unmarshal : String → Fallible A) (req : HttpRequest) where
  -- An exchange with status code 200 and a body that is the value a.
  pub record IsAnswered (a : A) : Type 0 where
    pub reply : Reply
    pub body : String
    pub requested : net.new_request req ≡ none
    pub replied : net.do_request req ≡ ok reply
    pub success : reply.status_code ≡ 200
    pub reads : reply.read ≡ ok body
    pub decodes : unmarshal body ≡ ok a

  module _ (msg : String) (wrong : ℕ → A → GoError) where
    answered-exchange :
        (a : A) → IsAnswered a → exchange net unmarshal msg wrong req ≡ (some a, none)
    unfolding exchange
    answered-exchange a i =
        rw (exchange, i.requested, i.replied, i.reads, decode, i.decodes, i.success)

    -- A reply whose body is the value b, and that ends without an error: its code was 200.
    decode-code :
        (body : String) (b : A) (code : ℕ)
        → (if code == 200 then none else some (wrong code b)) ≡ none
        → code ≡ 200
    decode-code body b code e = ground arith

    error_ne_none : (x : GoError) → some x ≢ none
    error_ne_none x e = cc

    decode-answered :
        (code : ℕ) (body : String)
        → (decode unmarshal msg wrong code body).1 ≡ none
        → (a : A) × (unmarshal body ≡ ok a) × (code ≡ 200)
    decode-answered code body e = elim (Fallible-cases (unmarshal body)) [
      | inl (x, u) ↦ absurd (error_ne_none _ (rw (decode, u) at e))
      | inr (b, u) ↦ (b, u, decode-code body b code (rw (decode, u) at e))
    ]

    -- An exchange that ends without an error was answered.
    pub no_error-IsAnswered :
        (exchange net unmarshal msg wrong req).1 ≡ none → (a : A) × IsAnswered a
    unfolding exchange
    no_error-IsAnswered e = elim (Option-cases (net.new_request req)) [
      | inr (x, n) ↦ absurd (error_ne_none _ (rw (exchange, n) at e))
      | inl n ↦ elim (Fallible-cases (net.do_request req)) [
        | inl (x, d) ↦ absurd (error_ne_none _ (rw (exchange, n, d) at e))
        | inr (reply, d) ↦ elim (Fallible-cases reply.read) [
          | inl (x, r) ↦ absurd (error_ne_none _ (rw (exchange, n, d, r) at e))
          | inr (body, r) ↦
              let (a, u, s) =
                decode-answered reply.status_code body (rw (exchange, n, d, r) at e) in
              (
                a,
                record {
                  reply = reply;
                  body = body;
                  requested = n;
                  replied = d;
                  success = s;
                  reads = r;
                  decodes = u;
                },
              )
        ]
      ]
    ]

    same-value : (a b : A) → ◌≡◌ {A = Result A} (some b, none) (some a, none) → b ≡ a
    same-value a b e = cc

    exchange-IsAnswered :
        (a : A) → exchange net unmarshal msg wrong req ≡ (some a, none) → IsAnswered a
    exchange-IsAnswered a e =
        let (b, i) = no_error-IsAnswered (ap (λ x. x.1) e) in
        subst IsAnswered (same-value a b (sym (answered-exchange b i) ∙ e)) i

-- Upload of the client returns the status st and no error exactly if the request can be made, and
-- the reply has code 200 and a body that can be read and is the JSON of st.
pub upload-IsAnswered :
    (net : Net) {F : Type 0} (unmarshal : String → Fallible (RequestStatus F)) (c : Client)
    (file : String) (uri : Url) (slug : String) (st : RequestStatus F)
    → (upload net unmarshal c file uri slug ≡ (some st, none))
      ↔ IsAnswered net unmarshal (upload_request net c file uri slug) st
unfolding upload
upload-IsAnswered net unmarshal c file uri slug st =
    (exchange-IsAnswered net unmarshal _ _ _ st, answered-exchange net unmarshal _ _ _ st)
