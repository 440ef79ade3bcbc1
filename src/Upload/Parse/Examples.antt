-- ===== src/Upload/Parse/Examples.antt =====
-- Tests of the checks on a request, and their theorems at concrete inputs.
use deliverator.Base.{◌≡◌, ◌≢◌, ◌↔◌, refl, String, none, some, returned, panicked}
use deliverator.Base.Int.{ℤ}
use deliverator.Upload.Samples.{whole, conf, url, form}
use deliverator.Upload.Task.{Task, new_upload_task}
use deliverator.Upload.Parse.{Form, size, is_abs, parse_request}
use deliverator.Upload.Parse.Validity.{IsAddressed}
use deliverator.Upload.Parse.Accepts.{parse_request-accepts, parse_request-panics}

abbrev fresh : Task ℤ
fresh = new_upload_task whole 7 1_000

sample-IsAddressed : IsAddressed form
unfolding is_abs
sample-IsAddressed = record {
  uri = url;
  file_given = λ h. cc;
  absolute = refl;
  uri_given = λ h. cc;
  parses = refl;
  scheme = refl;
  bucket = λ h. cc;
}

parse_request-accepts_example :
    ((u : Task ℤ) × (parse_request form conf fresh ≡ returned (u, none)))
    ↔ ((a : IsAddressed form) × (a.uri.path ≢ "") × ((n : ℤ) × (form.stat "/tmp/foo" ≡ size n)))
parse_request-accepts_example = parse_request-accepts form conf fresh (λ h. cc)

-- curl -d "file=/tmp/foo" -d "uri=s3://bucket"
abbrev pathless : Form
pathless = record form { parse_url = λ s. some (record url { path = "" }) }

parse_request-panics_example :
    ((msg : String) × (parse_request pathless conf fresh ≡ panicked msg))
    ↔ ((a : IsAddressed pathless) × (a.uri.path ≡ ""))
parse_request-panics_example = parse_request-panics pathless conf fresh (λ h. cc)
