-- ===== src/Upload/Clients/Examples.antt =====
-- The clients of a handler with ten parts at once, and the theorems at these.
use deliverator.Base.{
  ℕ, ◌*◌, ◌+◌, ◌≤◌, ◌<◌, ◌≡◌, ◌⊎◌, refl, ap, arith, true, false, ◌∷◌, none, [], returned,
}
use deliverator.Base.Int.{pos}
use deliverator.Conf.{started}
use deliverator.Semaphore.Laws.{counter}
use deliverator.Upload.Task.{new_upload_task}
use deliverator.Upload.Samples.{whole, conf, form, url}
use deliverator.Upload.Parse.{drop_slash, is_abs, parse_request}
use deliverator.Upload.Parse.Validity.{IsAddressed, parsed}
use deliverator.Upload.Handler.Samples.{sockets}
use deliverator.Upload.Concurrent.Samples.{started as at_start, no_rates, made}
use deliverator.Upload.Clients.{tracked, Clients, transport_options, new_clients, start_handler}
use deliverator.Upload.Clients.Samples.{plain_transport}
use deliverator.Upload.Clients.PartSize.{least_parts}

abbrev clients : Clients
clients = record {
  transport = record {
    expect_continue_timeout = pos 0;
    idle_conn_timeout = pos 0;
    max_idle_conns = pos 10;
    max_conns_per_host = pos 10;
    max_idle_conns_per_host = pos 10;
    write_buffer_size = pos 65_536;
    force_attempt_http2 = false;
    next_protos = "http/1.1" ∷ [];
    dialer = tracked;
  };
  base_endpoint = "http://example.com";
  checksum_when_required = true;
  use_path_style = true;
  retries = false;
  part_size = pos 5_242_880;
}

made_clients :
    start_handler counter sockets no_rates plain_transport none conf
    ≡ started (clients, returned at_start)
unfolding start_handler new_clients transport_options
made_clients = ap (λ o. started (clients, o)) made

addressed : IsAddressed form
unfolding is_abs
addressed = record {
  uri = url;
  file_given = λ h. cc;
  absolute = refl;
  uri_given = λ h. cc;
  parses = refl;
  scheme = refl;
  bucket = λ h. cc;
}

least_parts_example :
    (q : ℕ) × (parse_request form conf (new_upload_task whole 7 1_000)
      ≡ returned (
        parsed form (new_upload_task whole 7 1_000) addressed "key" (pos 6_000_000) (pos q),
        none,
      ))
    × (1 ≤ q)
    × (6_000_000 ≤ q * 5_242_880)
    × ((q ≡ 1) ⊎ (q * 5_242_880 < 6_000_000 + 5_242_880))
unfolding addressed drop_slash
least_parts_example =
    least_parts counter sockets no_rates plain_transport none conf made_clients form
      (new_upload_task whole 7 1_000) addressed "key" 6_000_000 5_242_880 refl refl refl
      (omega arith) (omega arith)
