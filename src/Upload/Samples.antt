-- ===== src/Upload/Samples.antt =====
-- Test data for the handler: exact numbers in place of float64, a configuration, a request.
use deliverator.Base.{◌*◌, ◌/◌, ◌^◌, true, none, some, str_eq, if◌then◌else◌}
use deliverator.Base.Int.{ℤ, pos, pos_part, eq_ℤ, ◌-ℤ◌}
use deliverator.Errors.{
  api_error, layer, sentinel, context_deadline_exceeded, upload_attempt_timeout,
}
use deliverator.Conf.{Conf, Quantity}
use deliverator.Upload.Task.{Float64, Url, Task, new_upload_task}
use deliverator.Upload.Parse.{Form, size}
use deliverator.Upload.Multipart.{Attempt}

-- Whole numbers, and no text.
abbrev pub whole : Float64 ℤ
whole = record {
  zero_f = pos 0;
  of_int64 = λ z. z;
  seconds = λ z. z;
  sub_f = λ a b. a -ℤ b;
  div_f = λ a b. pos (pos_part a / pos_part b);
  mul_f = λ a b. pos (pos_part a * pos_part b);
  pow_f = λ a b. pos (pos_part a ^ pos_part b);
  round_duration = λ a. a;
  duration_text = λ a. "";
  rate_text = λ a. "";
  is_zero_f = λ a. eq_ℤ a (pos 0);
  is_finite = λ a. true;
}

abbrev pub quantity : ℤ → Quantity
quantity n = record { value = n; text = "" }

-- Three tries, parts of 5 MiB, ten parts at once, and a limit of 80 bits per second.
abbrev pub conf : Conf
conf = record {
  host = "localhost";
  port = pos 15555;
  endpoint_url = "http://example.com";
  upload_max_parallel = pos 10;
  upload_timeout = pos 5_000_000_000;
  upload_timeout_factor = pos 2;
  queue_timeout = pos 10_000_000_000;
  upload_tries = pos 3;
  upload_partsize = quantity (pos 5_242_880);
  upload_bwlimit = quantity (pos 80);
  upload_write_buffer_size = quantity (pos 65_536);
  version = "0.0.0";
}

abbrev pub url : Url
url = record { scheme = "s3"; host = "bucket"; path = "/key"; text = "s3://bucket/key" }

-- A request to upload a file of 6 MB.
abbrev pub form : Form
form = record {
  post_form_value = λ name.
      if str_eq name "file"
      then "/tmp/foo"
      else if str_eq name "uri"
      then "s3://bucket/key"
      else "";
  parse_url = λ s. some url;
  stat = λ s. size (pos 6_000_000);
  quote = λ s. s;
}

-- A parsed task.
abbrev pub task : Task ℤ
task = record (new_upload_task whole 7 1_000) {
  uri = some url;
  file = some "/tmp/foo";
  bucket = some "bucket";
  key = some "key";
  upload_size_bytes = pos 6_000_000;
  upload_parts = pos 2;
}

abbrev pub success : Attempt
success = record { err = none; done = none }

abbrev pub timed_out : Attempt
timed_out = record {
  err = some (sentinel context_deadline_exceeded);
  done = some (sentinel upload_attempt_timeout);
}

abbrev pub no_such_bucket : Attempt
no_such_bucket = record {
  err = some (layer "operation error" (api_error "NoSuchBucket" "" "NoSuchBucket: "));
  done = none;
}
