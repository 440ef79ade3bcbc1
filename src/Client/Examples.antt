-- ===== src/Client/Examples.antt =====
-- The client at concrete exchanges with the handler.
use mathlib.Core.List.{Permᴰ}
use mathlib.Core.List.Permᴰ.{swap}
use deliverator.Base.{[], ◌∷◌, All, ◌≡◌, ◌↔◌, refl, String, none, some, returned}
use deliverator.Base.Int.{ℤ}
use deliverator.Semaphore.Laws.{counter}
use deliverator.Upload.Samples.{whole, url}
use deliverator.Upload.Task.{Url}
use deliverator.Upload.Handler.{Served, do_serve_http}
use deliverator.Upload.Handler.Samples.{handler, request}
use deliverator.Upload.Serve.{RequestStatus, message}
use deliverator.Upload.Serve.Run.{run}
use deliverator.Upload.Json.{object, status_members, marshal}
use deliverator.Upload.Json.RoundTrip.{exported}
use deliverator.Upload.Json.Samples.{texts, run-IsReadable}
use deliverator.Conf.{started, parsed, new_s3nd_conf}
use deliverator.Conf.Samples.{formats, sample, sample-IsReportable}
use deliverator.Conf.RoundTrip.{env_of, no_flags}
use deliverator.Version.{VersionInfo, serve_version}
use deliverator.Version.Json.{marshal_version}
use deliverator.Client.Restart.{unmarshal_info, version_replied, version-restarts}
use deliverator.Client.{upload_multi, Fallible, ok, Net, Client, upload, version}
use deliverator.Client.Multi.{upload_status, WasUploaded, upload_multi-any_order}
use deliverator.Client.Serves.{Json, ReadsBack, unmarshal_status, replied, upload-serve_http}

-- One text, and the value that it stands for.
abbrev json : Json
json = record {
  parse = λ s. ok (object (status_members whole texts run.0.1.body));
  render = λ v. "{}";
}

-- A network on which every request is answered like the sample request.
abbrev net : Net
net = record {
  url_text = λ u. u.text;
  encode = λ vs. "";
  quote = λ s. s;
  quote_number = λ n. "";
  new_request = λ req. none;
  do_request = λ req. replied whole texts json run.0.1;
}

abbrev decoded : String → Fallible (RequestStatus ℤ)
decoded body = ok run.0.1.body

abbrev client : Client
client = record { server = record url { scheme = "http"; host = "localhost" } }

-- Two files, of which the second one is uploaded first.
abbrev first_file : String × Url
first_file = ("/tmp/foo", url)

abbrev second_file : String × Url
second_file = ("/tmp/bar", url)

upload_multi-any_order_example :
    Permᴰ
      (upload_status net decoded client "" first_file
        ∷ upload_status net decoded client "" second_file
        ∷ [])
      (upload_multi net decoded client (second_file ∷ first_file ∷ []) "").0
    × (((upload_multi net decoded client (second_file ∷ first_file ∷ []) "").1 ≡ none)
        ↔ All (WasUploaded net decoded client "") (first_file ∷ second_file ∷ []))
upload_multi-any_order_example =
    upload_multi-any_order net decoded client "" {files = first_file ∷ second_file ∷ []}
      (swap {l = []} refl refl)

back : ReadsBack whole texts json run.0.1.body
unfolding marshal
back v e = cc

upload-serve_http_example :
    (s : Served counter whole) × (do_serve_http counter whole request handler ≡ returned s)
    × ((upload net (unmarshal_status whole texts json) client "/tmp/foo" url "").0
        ≡ some (record run.0.1.body { task = exported s.1 }))
    × (run.0.1.body.msg ≡ message s.3)
    × (((upload net (unmarshal_status whole texts json) client "/tmp/foo" url "").1 ≡ none)
        ↔ (s.3 ≡ none))
upload-serve_http_example =
    upload-serve_http whole texts json net client "/tmp/foo" url "" counter request handler run.0.0
      run.0.1 run.0.2 run.1 refl refl refl run-IsReadable back

-- A server that is asked for its version.
abbrev info_json : Json
info_json = record {
  parse = λ s. ok (marshal_version (serve_version formats "0.0.0" sample).body);
  render = λ v. "{}";
}

abbrev info_net : Net
info_net = record net {
  do_request = λ req. version_replied info_json (serve_version formats "0.0.0" sample);
}

version-restarts_example :
    (info : VersionInfo) × (version info_net (unmarshal_info info_json) client ≡ (some info, none))
    × (info.version ≡ "0.0.0")
    × (new_s3nd_conf formats (env_of info.config) (parsed no_flags) info.version ≡ started sample)
version-restarts_example =
    version-restarts info_json formats sample info_net client sample-IsReportable refl refl refl
