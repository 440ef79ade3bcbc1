-- ===== src/Upload/Handler/Samples.antt =====
-- Test data for the handler: sockets, a handler, and a request to it.
use deliverator.Base.{◌≡◌, refl, none, [], returned}
use deliverator.Base.Int.{ℤ, pos_part, wrap64}
use deliverator.Util.{div_ceil}
use deliverator.Upload.Task.{Task, new_upload_task}
use deliverator.Upload.Parse.{
  parse_request, parse_file, parse_uri, parse_slug, parse_size, is_abs, drop_slash,
}
use deliverator.Errors.{sentinel, context_deadline_exceeded, upload_queue_timeout}
use deliverator.Semaphore.Laws.{Counter, counter}
use deliverator.ConnTracker.TcpInfo.{empty}
use deliverator.ConnTracker.Tracker.{Sockets, info}
use deliverator.Upload.Samples.{whole, conf, form, success}
use deliverator.Upload.Handler.{Handler, Request, new_handler}

abbrev pub sockets : Sockets
sockets = record {
  syscall_conn = λ c. none;
  control = λ c. none;
  set_rate = λ c pace. none;
  get_info = λ c. info empty;
}

abbrev pub handler : Handler Counter
handler =
    new_handler counter conf (λ c. 0)
      (record { inner = record { count = 0; limit = 10 }; waiters = 0 })

-- The file opens, and every attempt succeeds.
abbrev pub request : Request Counter
request = record {
  id = 7;
  started = 1_000;
  transfer_started = 2_000;
  ended = 3_000;
  form = form;
  others_queued = [];
  tracker_queued = λ t. t;
  queue_err = sentinel context_deadline_exceeded;
  queue_cause = sentinel upload_queue_timeout;
  open_file = λ f. none;
  uploader = λ c. success;
  others_uploading = λ h. h;
  sockets_before = sockets;
  sockets_after = sockets;
}

-- The request is accepted, with two parts.
abbrev pub accepted :
    (u : Task ℤ) × (parse_request form conf (new_upload_task whole 7 1_000) ≡ returned (u, none))
    × (pos_part u.upload_parts ≡ 2)
unfolding parse_request parse_file parse_uri parse_slug parse_size is_abs drop_slash new_upload_task
    div_ceil wrap64
accepted = (_, refl, refl)
