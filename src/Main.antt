-- ===== src/Main.antt =====
-- cmd/s3nd/main.go: the program.
pub mod Ends
mod Examples
use Prim.Native.String.{◌++◌ as ◌+++◌}
use deliverator.Base.{
  ℕ, String, Option, none, some, List, [], ◌∷◌, map, Outcome, returned, panicked, if◌then◌else◌,
}
use deliverator.Base.Int.{ℤ, pos}
use deliverator.Errors.{GoError, is, error_text, server_closed}
use deliverator.Conf.{Conf, Formats, Env, CommandLine, Start, started, exited, new_s3nd_conf}
use deliverator.Conf.Numbers.{itoa}
use deliverator.Semaphore.{Msemaphore}
use deliverator.ConnTracker.Tracker.{Sockets}
use deliverator.Upload.Handler.{Handler}
use deliverator.Upload.Clients.{Transport, Clients, start_handler}
use deliverator.Collector.{Desc, descs}

-- What answers a route. `version` has the configuration that version.NewHandler gets, `upload` the
-- handler of NewS3ndHandler, and `metrics` the handler that the registered collector reads.
pub data Endpoint (S : Type 0) : Type 0 where
  swagger : String → Endpoint S
  version : Conf → Endpoint S
  upload : Handler S → Endpoint S
  metrics : Handler S → Endpoint S

-- chi's Get and Handle.
pub data Route (S : Type 0) : Type 0 where
  get : String → Endpoint S → Route S
  handle : String → Endpoint S → Route S

-- http.Server. The timeouts are in nanoseconds.
pub record Server (S : Type 0) : Type 0 where
  pub addr : String
  pub read_timeout : ℤ
  pub write_timeout : ℤ
  pub handler : List (Route S)

-- How the process ends: before it listens, by os.Exit or by a panic, or after ListenAndServe of a
-- server has returned, with an exit code.
pub data End (S : Type 0) : Type 0 where
  exits : ℕ → String → End S
  panics : String → End S
  serves : Server S → ℕ → End S

-- The address and the routes.
unfoldable pub new_server : {S : Type 0} → String → Conf → Handler S → Server S
unfolding itoa
new_server v c h = record {
  addr = c.host +++ ":" +++ itoa c.port;
  read_timeout = pos 60_000_000_000;
  write_timeout = pos 60_000_000_000;
  handler =
      get "/swagger/*" (swagger v)
      ∷ handle "/version" (version c)
      ∷ handle "/upload" (upload h)
      ∷ handle "/metrics" (metrics h)
      ∷ [];
}

-- The exit code, from what ListenAndServe returned.
unfoldable pub exit_code : Option GoError → ℕ
exit_code none = 0
exit_code (some e) = if is e server_closed then 0 else 1

-- From NewS3ndHandler on. `register` is the registration of the descriptions of a collector, whose
-- error is a panic in MustRegister, and `listen` is ListenAndServe.
unfoldable pub serve :
    {S : Type 0}
    → (List Desc → Option GoError)
    → (Server S → Option GoError)
    → String
    → Conf
    → Outcome (Handler S)
    → End S
unfolding new_server exit_code
serve register listen v c (panicked msg) = panics msg
serve register listen v c (returned h) = elim (register (map (λ d. d.1) descs)) [
  | some e ↦ panics (error_text e)
  | none ↦ let s = new_server v c h in serves s (exit_code (listen s))
]

-- main. `v` is the variable Version of version/version.go.
unfoldable pub main :
    {S : Type 0} (m : Msemaphore S)
    → Sockets
    → (ℕ → ℕ)
    → Transport
    → Option GoError
    → (List Desc → Option GoError)
    → (Server S → Option GoError)
    → Formats
    → Env
    → CommandLine
    → String
    → End S
unfolding new_s3nd_conf start_handler serve
main m k rates t load_error register listen f env line v = elim (new_s3nd_conf f env line v) [
  | exited code msg ↦ exits code msg
  | started c ↦ elim (start_handler m k rates t load_error c) [
    | exited code msg ↦ exits code msg
    | started (clients, h) ↦ serve register listen v c h
  ]
]
