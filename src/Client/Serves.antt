-- ===== src/Client/Serves.antt =====
-- The client of client/client.go and the handler of upload/handler.go together.
use Prim.Native.String.{◌++◌ as ◌+++◌}
use deliverator.Base.{
  ◌^◌, ◌<◌, ◌≡◌, ◌↔◌, refl, arith, true, String, none, some, List, returned, ◌==◌, ==_iff,
  Bool-cases, inl, inr, Option, ap, ◌∙◌,
}
use deliverator.Errors.{GoError, plain}
use deliverator.Semaphore.{Msemaphore}
use deliverator.Upload.Task.{Float64, Url}
use deliverator.Upload.Metrics.{Event}
use deliverator.Upload.Handler.{Handler, Request, Served, do_serve_http}
use deliverator.Upload.Serve.{RequestStatus, Response, message, serve_http, status_code}
use deliverator.Upload.Serve.Answers.{serve_http-Answers}
use deliverator.Upload.Json.{Value, Texts, encode, marshal, unmarshal, is_encodable}
use deliverator.Upload.Json.RoundTrip.{exported, IsReadable, unmarshal-marshal}
use deliverator.Client.{
  decode, receive, Fallible, err, ok, Reply, Net, Client, exchange, upload_request, upload,
}

-- The program's encoding/json: a value from its text, and the text of a value.
pub record Json : Type 0 where
  pub parse : String → Fallible Value
  pub render : Value → String

status_code-small : (e : Option GoError) → status_code e < 600
unfolding status_code
status_code-small none = omega arith
status_code-small (some e) = ground arith

module _ {F : Type 0} (fl : Float64 F) (x : Texts F) (json : Json) where
  -- A response on its way to the client: its code, and its body encoded.
  abbrev pub replied : Response F → Fallible Reply
  replied resp =
      ok (record { status_code = resp.status; read = ok (encode fl x json.render resp.body) })

  abbrev typed : Option (RequestStatus F) → Fallible (RequestStatus F)
  typed none = err (plain "json: cannot unmarshal")
  typed (some st) = ok st

  -- json.Unmarshal of a text, into a RequestStatus.
  abbrev pub unmarshal_status : String → Fallible (RequestStatus F)
  unmarshal_status s = elim (json.parse s) [ err e ↦ err e | ok v ↦ typed (unmarshal fl x v) ]

  -- encoding/json reads back the value that it writes for st.
  abbrev pub ReadsBack : RequestStatus F → Type 0
  ReadsBack st = (v : Value) → marshal fl x st ≡ some v → json.parse (json.render v +++ "\n") ≡ ok v

  read-written :
      (st : RequestStatus F)
      → is_encodable fl x st.task ≡ true
      → IsReadable fl x st.task
      → st.code < 2 ^ 63
      → ReadsBack st
      → unmarshal_status (encode fl x json.render st) ≡ ok (record st { task = exported st.task })
  read-written st e r c back =
      let (v, m, u) = (unmarshal-marshal fl x st r c).1 e in
      rw (encode, unmarshal_status, m, back v m, u)

  module _ (net : Net) (c : Client) (file : String) (uri : Url) (slug : String) where
    upload-replied :
        (resp : Response F) (st : RequestStatus F)
        → net.new_request (upload_request net c file uri slug) ≡ none
        → net.do_request (upload_request net c file uri slug) ≡ replied resp
        → unmarshal_status (encode fl x json.render resp.body) ≡ ok st
        → ((upload net unmarshal_status c file uri slug).0 ≡ some st)
          × (((upload net unmarshal_status c file uri slug).1 ≡ none) ↔ (resp.status ≡ 200))
    unfolding upload exchange
    upload-replied resp st n d u = elim (Bool-cases (resp.status == 200)) [
      | inl e ↦
          rw (upload, exchange, n, d, receive, decode, u, e)
            (refl, ground (arith, ==_iff resp.status 200))
      | inr e ↦
          rw (upload, exchange, n, d, receive, decode, u, e)
            (refl, ground (arith, ==_iff resp.status 200))
    ]

    -- If the client's request reaches ServeHTTP, which returns a response whose task has only finite
    -- floats and texts and integers that are read as what they were, and that reaches the client: then
    -- the client has the handler's status, with the task that doServeHTTP returned but for the fields
    -- that are not exported, and with the text for its error; and the client returns no error
    -- exactly if doServeHTTP returned none.
    pub upload-serve_http :
        {S : Type 0} (m : Msemaphore S) (r : Request S) (h h' : Handler S) (resp : Response F)
        (es : List (Event F))
        → serve_http m fl r h ≡ returned (h', resp, es)
        → net.new_request (upload_request net c file uri slug) ≡ none
        → net.do_request (upload_request net c file uri slug) ≡ replied resp
        → is_encodable fl x resp.body.task ≡ true
        → IsReadable fl x resp.body.task
        → ReadsBack resp.body
        → (s : Served m fl) × (do_serve_http m fl r h ≡ returned s)
          × ((upload net unmarshal_status c file uri slug).0
              ≡ some (record resp.body { task = exported s.1 }))
          × (resp.body.msg ≡ message s.3)
          × (((upload net unmarshal_status c file uri slug).1 ≡ none) ↔ (s.3 ≡ none))
    upload-serve_http m r h h' resp es served n d finite readable back =
        let (s, e, a) = serve_http-Answers m fl r h h' resp es served in
        let code : resp.body.code < 2 ^ 63 =
          omega (arith, a.same_code, a.code, status_code-small s.3) in
        let (body, success) =
          upload-replied resp _ n d (read-written resp.body finite readable code back) in
        (
          s,
          e,
          body ∙ ap (λ t. some (record resp.body { task = exported t })) a.task,
          a.text,
          (λ i. a.success.0 (success.0 i), λ i. success.1 (a.success.1 i)),
        )
