-- ===== src/Upload/Multipart/Examples.antt =====
-- Tests of the attempts, after upload/handler_test.go, and the theorems at concrete inputs.
use deliverator.Base.{◌≡◌, ◌==◌, refl, arith, none, [], returned, if◌then◌else◌}
use deliverator.Base.Int.{ℤ, pos, negsuc}
use deliverator.Conf.{Conf}
use deliverator.Upload.Samples.{whole, conf, task, success, timed_out}
use deliverator.Upload.Multipart.{Uploader, Uploaded, upload_timeout, upload_file_multipart}
use deliverator.Upload.Multipart.Decision.{Decides}
use deliverator.Upload.Multipart.Timeout.{IsExact, upload_timeout_exponential}
use deliverator.Upload.Multipart.Uploads.{upload-Decides, upload-no_tries}

-- The first attempt times out, and the second succeeds.
abbrev second_succeeds : Uploader
second_succeeds c = if c.number == 1 then timed_out else success

third_timeout : upload_timeout whole conf (pos 3) ≡ pos 20_000_000_000
unfolding upload_timeout
third_timeout = refl

whole-IsExact : IsExact whole
whole-IsExact = record {
  pow_exact = λ a n h. refl;
  mul_exact = λ a b h. refl;
  round_exact = λ a h. refl;
}

upload_timeout_exponential_example : upload_timeout whole conf (pos 3) ≡ pos 20_000_000_000
upload_timeout_exponential_example =
    upload_timeout_exponential whole whole-IsExact conf 2 5_000_000_000 2 refl refl (omega arith)
      (omega arith) (omega arith)

upload-Decides_example :
    (r : Uploaded ℤ) × (upload_file_multipart whole conf second_succeeds (λ f. none) task
      ≡ returned r)
    × Decides whole conf second_succeeds task "bucket" "key" 1 3 r
upload-Decides_example =
    upload-Decides whole conf second_succeeds (λ f. none) task "/tmp/foo" "bucket" "key" refl refl
      refl refl 2 refl

abbrev negative_tries : Conf
negative_tries = record conf { upload_tries = negsuc 0 }

upload-no_tries_example :
    upload_file_multipart whole negative_tries second_succeeds (λ f. none) task
    ≡ returned (record task { upload_attempts = pos 1 }, [], none)
upload-no_tries_example =
    upload-no_tries whole negative_tries second_succeeds (λ f. none) task "/tmp/foo" "bucket" "key"
      refl refl refl refl (omega arith)
