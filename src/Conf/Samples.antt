-- ===== src/Conf/Samples.antt =====
-- Test data for the configuration.
use deliverator.Base.{refl, arith, some}
use deliverator.Base.Int.{pos}
use deliverator.Conf.{Conf, Formats}
use deliverator.Conf.Numbers.{parse_int, itoa, digit}
use deliverator.Conf.RoundTrip.{IsReportable}

-- Two durations, and quantities that are texts of a number.
abbrev pub formats : Formats
formats = record {
  duration_text = λ z. itoa z;
  parse_duration = λ s. some (parse_int s);
  parse_quantity = λ s. some (record { value = parse_int s; text = s });
}

abbrev pub sample : Conf
sample = record {
  host = "0.0.0.0";
  port = pos 8080;
  endpoint_url = "https://example.com";
  upload_max_parallel = pos 20;
  upload_timeout = pos 5_000_000_000;
  upload_timeout_factor = pos 2;
  queue_timeout = pos 30_000_000_000;
  upload_tries = pos 5;
  upload_partsize = record { value = pos 10_485_760; text = "10485760" };
  upload_bwlimit = record { value = pos 1_000_000; text = "1000000" };
  upload_write_buffer_size = record { value = pos 65_536; text = "65536" };
  version = "0.0.0";
}

pub sample-IsReportable : IsReportable formats sample
unfolding itoa parse_int digit
sample-IsReportable = record {
  endpoint_url = λ h. cc;
  port = record { low = omega arith; high = omega arith; not_zero = refl };
  upload_max_parallel = record { low = omega arith; high = omega arith; not_zero = refl };
  upload_timeout_factor = record { low = omega arith; high = omega arith; not_zero = refl };
  upload_tries = record { low = omega arith; high = omega arith; not_zero = refl };
  upload_timeout = record { not_empty = λ h. cc; reads = refl };
  queue_timeout = record { not_empty = λ h. cc; reads = refl };
  upload_partsize = record { not_empty = λ h. cc; reads = refl };
  upload_bwlimit = record { not_empty = λ h. cc; reads = refl };
  upload_write_buffer_size = record { not_empty = λ h. cc; reads = refl };
}
