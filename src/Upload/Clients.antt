-- ===== src/Upload/Clients.antt =====
-- The clients that NewS3ndHandler of upload/handler.go sets up: the HTTP transport, the S3 client
-- and the upload manager, as the settings that it passes to the libraries.
pub mod PartSize
pub mod Samples
mod Examples
use deliverator.Base.{ℕ, String, Bool, true, false, Option, none, some, List, [], ◌∷◌, Outcome}
use deliverator.Base.Int.{ℤ, pos}
use deliverator.Errors.{GoError, error_text}
use deliverator.Conf.{Conf, Start, started, exited}
use deliverator.Semaphore.{Msemaphore}
use deliverator.ConnTracker.Tracker.{Sockets}
use deliverator.Upload.Handler.{Handler, new_s3nd_handler}

-- What dials the connections of a transport.
pub data Dialer : Type 0 where
  -- DialContext of the handler's tracker
  tracked : Dialer
  untracked : Dialer

-- The fields of http.Transport that are set.
pub record Transport : Type 0 where
  pub expect_continue_timeout : ℤ
  pub idle_conn_timeout : ℤ
  pub max_idle_conns : ℤ
  pub max_conns_per_host : ℤ
  pub max_idle_conns_per_host : ℤ
  pub write_buffer_size : ℤ
  pub force_attempt_http2 : Bool
  pub next_protos : List String
  pub dialer : Dialer

-- The options of the transport, and its DialContext, for a transport as the AWS library makes it.
unfoldable pub transport_options : Conf → Transport → Transport
transport_options c t = record t {
  expect_continue_timeout = pos 0;
  idle_conn_timeout = pos 0;
  max_idle_conns = c.upload_max_parallel;
  max_conns_per_host = c.upload_max_parallel;
  max_idle_conns_per_host = c.upload_max_parallel;
  write_buffer_size = c.upload_write_buffer_size.value;
  force_attempt_http2 = false;
  next_protos = "http/1.1" ∷ [];
  dialer = tracked;
}

-- The settings of the S3 client, and the part size of the upload manager.
pub record Clients : Type 0 where
  pub transport : Transport
  pub base_endpoint : String
  pub checksum_when_required : Bool
  pub use_path_style : Bool
  pub retries : Bool
  pub part_size : ℤ

unfoldable pub new_clients : Conf → Transport → Clients
unfolding transport_options
new_clients c t = record {
  transport = transport_options c t;
  base_endpoint = c.endpoint_url;
  checksum_when_required = true;
  use_path_style = true;
  retries = false;
  part_size = c.upload_partsize.value;
}

-- NewS3ndHandler with its clients. `load_error` is the error of config.LoadDefaultConfig.
unfoldable pub start_handler :
    {S : Type 0} (m : Msemaphore S)
    → Sockets
    → (ℕ → ℕ)
    → Transport
    → Option GoError
    → Conf
    → Start (Clients × Outcome (Handler S))
start_handler m s rates t load_error c = elim load_error [
  | some e ↦ exited 1 (error_text e)
  | none ↦ started (new_clients c t, new_s3nd_handler m s c rates)
]
