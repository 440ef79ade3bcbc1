-- ===== src/Client/Restart.antt =====
-- Version of client/client.go and the handler of version/handler.go together.
use Prim.Native.String.{◌++◌ as ◌+++◌}
use deliverator.Base.{◌≡◌, refl, ap, ◌∙◌, String, Option, none, some}
use deliverator.Errors.{plain}
use deliverator.Conf.{Conf, Formats, started, parsed, new_s3nd_conf}
use deliverator.Conf.RoundTrip.{env_of, no_flags, IsReportable, new_s3nd_conf-to_map}
use deliverator.Version.{VersionInfo, VersionResponse, serve_version}
use deliverator.Version.Json.{marshal_version, unmarshal_version, unmarshal-serve_version}
use deliverator.Client.{
  decode, receive, Fallible, err, ok, Reply, Net, Client, exchange, version, version_request,
}
use deliverator.Client.Serves.{Json}

module _ (json : Json) where
  abbrev found : Option VersionInfo → Fallible VersionInfo
  found none = err (plain "json: cannot unmarshal")
  found (some i) = ok i

  -- json.Unmarshal of a text, into a VersionInfo.
  abbrev pub unmarshal_info : String → Fallible VersionInfo
  unmarshal_info s = elim (json.parse s) [ err e ↦ err e | ok v ↦ found (unmarshal_version v) ]

  -- The response with its body encoded, on its way to the client.
  abbrev pub version_replied : VersionResponse → Fallible Reply
  version_replied r =
      ok (record {
        status_code = r.status;
        read = ok (json.render (marshal_version r.body) +++ "\n");
      })

  module _ (f : Formats) (c : Conf) (net : Net) (client : Client) where
    -- The body of the answer for the configuration c.
    abbrev pub answer : VersionInfo
    answer = (serve_version f c.version c).body

    read-answer :
        json.parse (json.render (marshal_version answer) +++ "\n") ≡ ok (marshal_version answer)
        → unmarshal_info (json.render (marshal_version answer) +++ "\n") ≡ ok answer
    read-answer back =
        ap (λ r. elim r [ err e ↦ err e | ok v ↦ found (unmarshal_version v) ]) back
        ∙ ap found (unmarshal-serve_version f c.version c)

    version-replied :
        (r : VersionResponse)
        → r.status ≡ 200
        → unmarshal_info (json.render (marshal_version r.body) +++ "\n") ≡ ok r.body
        → net.new_request (version_request net client) ≡ none
        → net.do_request (version_request net client) ≡ version_replied r
        → version net unmarshal_info client ≡ (some r.body, none)
    unfolding version exchange
    version-replied r success read n d =
        rw (version, exchange, n, d, receive, decode, read, success) refl

    version-answer :
        json.parse (json.render (marshal_version answer) +++ "\n") ≡ ok (marshal_version answer)
        → net.new_request (version_request net client) ≡ none
        → net.do_request (version_request net client)
          ≡ version_replied (serve_version f c.version c)
        → version net unmarshal_info client ≡ (some answer, none)
    unfolding serve_version
    version-answer back n d =
        version-replied (serve_version f c.version c) refl (read-answer back) n d

    -- If a client's request for the version reaches a server with a configuration whose values can be
    -- reported and read, the server's answer reaches the client, and encoding/json reads back what it
    -- writes: then Version returns no error and an info with the server's version, and NewS3ndConf with
    -- the variables of that info, and no flags, returns the server's configuration.
    pub version-restarts :
        IsReportable f c
        → json.parse (json.render (marshal_version answer) +++ "\n") ≡ ok (marshal_version answer)
        → net.new_request (version_request net client) ≡ none
        → net.do_request (version_request net client)
          ≡ version_replied (serve_version f c.version c)
        → (info : VersionInfo) × (version net unmarshal_info client ≡ (some info, none))
          × (info.version ≡ c.version)
          × (new_s3nd_conf f (env_of info.config) (parsed no_flags) info.version ≡ started c)
    unfolding serve_version
    version-restarts r back n d =
        (answer, version-answer back n d, refl, new_s3nd_conf-to_map f c r)
