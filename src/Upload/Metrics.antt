-- ===== src/Upload/Metrics.antt =====
-- The Prometheus metrics of upload/handler.go, as the calls that are made on them in order.
use deliverator.Base.{ℕ, String}

-- One call. The labels "code" and "reason" of a metric are the status code and its text, so the
-- code stands for both.
pub data Event (F : Type 0) : Type 0 where
  valid_request : Event F
  attempt : Event F
  retry : Event F
  requests_total : ℕ → Event F
  bytes_total : ℕ → F → Event F
  s3_http_response : ℕ → Event F
  s3_api_error : String → String → Event F
  transfer_rate_bytes : F → Event F
  total_seconds : ℕ → F → Event F
  queued_seconds : ℕ → F → Event F
  transfer_seconds : ℕ → F → Event F
  transfer_size_bytes : ℕ → F → Event F
  upload_attempts : ℕ → F → Event F
  upload_parts : ℕ → F → Event F
