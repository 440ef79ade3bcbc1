-- ===== src/Upload/Clients/Samples.antt =====
-- Test data for the clients.
use deliverator.Base.{true, []}
use deliverator.Base.Int.{pos}
use deliverator.Upload.Clients.{Transport, untracked}

-- The defaults of the AWS library.
abbrev pub plain_transport : Transport
plain_transport = record {
  expect_continue_timeout = pos 1_000_000_000;
  idle_conn_timeout = pos 90_000_000_000;
  max_idle_conns = pos 100;
  max_conns_per_host = pos 2048;
  max_idle_conns_per_host = pos 10;
  write_buffer_size = pos 0;
  force_attempt_http2 = true;
  next_protos = [];
  dialer = untracked;
}
