-- ===== src/Docs/Examples.antt =====
-- The documentation of the API at the sample request, and where it says less than the answers do.
use deliverator.Base.{arith, ◌≡◌, refl, true, false, none}
use deliverator.Semaphore.Laws.{counter}
use deliverator.Upload.Samples.{whole}
use deliverator.Upload.Handler.Samples.{handler, request}
use deliverator.Upload.Serve.Run.{run}
use deliverator.Upload.Json.{Value, text, object, end, member}
use deliverator.Upload.Json.Samples.{texts}
use deliverator.Docs.{
  integer_type, request_status_400, request_status_404, upload_responses, find_response, conforms,
}
use deliverator.Docs.Answers.{Documented, serve_http-Documented}

serve_http-Documented_example : Documented whole texts run.0.1
serve_http-Documented_example =
    serve_http-Documented whole texts counter request handler run.0.0 run.0.1 run.0.2 (omega arith)
      (λ file. (omega arith, omega arith)) run.1 refl

-- A file that os.Stat does not find: the task has a member `uri`, which is documented for 404 only.
abbrev not_found : Value
not_found = object (member "task" (object (member "uri" (text "s3://bucket/key") end)) end)

uri_undocumented : conforms true request_status_400 not_found ≡ false
unfolding conforms
uri_undocumented = refl

uri_documented : conforms true request_status_404 not_found ≡ true
unfolding conforms
uri_documented = refl

-- A value of another type does not conform.
text_no_integer : conforms false integer_type (text "1") ≡ false
unfolding conforms
text_no_integer = refl

bad_gateway : find_response upload_responses 502 ≡ none
bad_gateway = refl
