-- ===== src/Client.antt =====
-- client/client.go: the client of the service.
pub mod Exchange
pub mod Multi
pub mod Serves
pub mod Restart
mod Examples
use Prim.Native.String.{◌++◌ as ◌+++◌}
use deliverator.Base.{ℕ, String, Option, none, some, List, [], ◌∷◌, map, ◌==◌, if◌then◌else◌}
use deliverator.Errors.{GoError, wrap, join, plain}
use deliverator.ConnTracker.Tracker.{join_all}
use deliverator.Upload.Task.{Url}
use deliverator.Upload.Serve.{RequestStatus}
use deliverator.Version.{VersionInfo}

-- An error, or a value.
pub data Fallible (A : Type 0) : Type 0 where
  err : GoError → Fallible A
  ok : A → Fallible A

-- What http.DefaultClient.Do gives back: the status code, and the body as io.ReadAll reads it.
pub record Reply : Type 0 where
  pub status_code : ℕ
  pub read : Fallible String

-- An *http.Request.
pub record HttpRequest : Type 0 where
  pub method : String
  pub url : String
  pub body : String
  pub content_type : String

-- What the client calls: URL.String, url.Values.Encode, fmt's %q of a text and of a number,
-- http.NewRequestWithContext up to the error, and http.DefaultClient.Do.
pub record Net : Type 0 where
  pub url_text : Url → String
  pub encode : List (String × String) → String
  pub quote : String → String
  pub quote_number : ℕ → String
  pub new_request : HttpRequest → Option GoError
  pub do_request : HttpRequest → Fallible Reply

-- Client.
pub record Client : Type 0 where
  pub server : Url

-- The results of a call: nil or a status, and the error.
abbrev pub Result : Type 0 → Type 0
Result A = Option A × Option GoError

-- UploadStatus.
pub record UploadStatus (F : Type 0) : Type 0 where
  pub server : Url
  pub request_status : Option (RequestStatus F)
  pub error : Option GoError

-- From the body to the results: json.Unmarshal, and the test of the status code. `wrong` is the
-- error for a code other than 200.
abbrev pub decode :
    {A : Type 0} → (String → Fallible A) → String → (ℕ → A → GoError) → ℕ → String → Result A
decode unmarshal msg wrong code body = elim (unmarshal body) [
  | err e ↦ (none, some (wrap e msg))
  | ok a ↦ (some a, if code == 200 then none else some (wrong code a))
]

-- The errors among the statuses.
abbrev pub errors_of : {F : Type 0} → List (UploadStatus F) → List GoError
errors_of [] = []
errors_of (s ∷ ss) = elim s.error [ none ↦ errors_of ss | some e ↦ e ∷ errors_of ss ]

module _ (net : Net) where
  abbrev pub receive :
      {A : Type 0} → (String → Fallible A) → String → (ℕ → A → GoError) → Fallible Reply → Result A
  receive unmarshal msg wrong (err e) = (none, some (wrap e msg))
  receive unmarshal msg wrong (ok reply) = elim reply.read [
    | err e ↦ (none, some (wrap e msg))
    | ok body ↦ decode unmarshal msg wrong reply.status_code body
  ]

  -- A request and its reply.
  unfoldable pub exchange :
      {A : Type 0} → (String → Fallible A) → String → (ℕ → A → GoError) → HttpRequest → Result A
  exchange unmarshal msg wrong req = elim (net.new_request req) [
    | some e ↦ (none, some (wrap e msg))
    | none ↦ receive unmarshal msg wrong (net.do_request req)
  ]

  abbrev pub upload_request : Client → String → Url → String → HttpRequest
  upload_request c file uri slug = record {
    method = "POST";
    url = net.url_text (record c.server { path = "/upload" });
    body = net.encode (("file", file) ∷ ("uri", net.url_text uri) ∷ ("slug", slug) ∷ []);
    content_type = "application/x-www-form-urlencoded";
  }

  abbrev pub upload_message : String → Url → String
  upload_message file uri =
      "error sending file " +++ net.quote file +++ " to uri " +++ net.quote (net.url_text uri)

  -- Upload.
  unfoldable pub upload :
      {F : Type 0}
      → (String → Fallible (RequestStatus F))
      → Client
      → String
      → Url
      → String
      → Result (RequestStatus F)
  unfolding exchange
  upload unmarshal c file uri slug =
      exchange unmarshal (upload_message file uri)
        (λ code status. plain (upload_message file uri +++ ", msg " +++ net.quote status.msg))
        (upload_request c file uri slug)

  -- UploadMulti, with the files in the order in which their uploads end: that of the channel.
  unfoldable pub upload_multi :
      {F : Type 0}
      → (String → Fallible (RequestStatus F))
      → Client
      → List (String × Url)
      → String
      → List (UploadStatus F) × Option GoError
  unfolding upload
  upload_multi unmarshal c files slug =
      let statuses =
        map
          (λ f.
            let (status, e) = upload unmarshal c f.0 f.1 slug in
            record { server = c.server; request_status = status; error = e })
          files in
      (statuses, join_all (errors_of statuses))

  abbrev pub version_request : Client → HttpRequest
  version_request c = record {
    method = "GET";
    url = net.url_text (record c.server { path = "/version" });
    body = "";
    content_type = "";
  }

  -- Version.
  unfoldable pub version : (String → Fallible VersionInfo) → Client → Result VersionInfo
  unfolding exchange
  version unmarshal c =
      exchange unmarshal "error getting version info"
        (λ code info. plain ("error getting version info, status code " +++ net.quote_number code))
        (version_request c)
