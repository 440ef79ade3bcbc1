-- ===== src/Main/Examples.antt =====
-- A run of main with the endpoint in the environment, and one that is asked for the version.
use deliverator.Base.{◌≡◌, refl, List, str_eq, if◌then◌else◌, Option, none, some, true, map}
use deliverator.Errors.{GoError, sentinel, server_closed, plain, is}
use deliverator.Conf.{Env, CommandLine, parsed, malformed, new_s3nd_conf, text_default}
use deliverator.Base.Int.{pos}
use deliverator.Upload.Handler.{new_s3nd_handler}
use deliverator.Upload.Clients.{start_handler}
use deliverator.Conf.RoundTrip.{no_flags}
use deliverator.Conf.Samples.{formats}
use deliverator.Semaphore.Laws.{Counter, counter, counter-IsCounting}
use deliverator.Collector.{Desc}
use deliverator.Upload.Handler.Samples.{sockets}
use deliverator.Upload.Concurrent.Samples.{no_rates}
use deliverator.Upload.Clients.Samples.{plain_transport}
use deliverator.Main.{Server, End, exits, panics, serve, exit_code, main}
use deliverator.Main.Ends.{distinct, Registers, Ended, main-Ended}

abbrev env : Env
env key = if str_eq key "S3ND_ENDPOINT_URL" then some "http://example.com" else none

-- It refuses metrics of one name.
abbrev register : List Desc → Option GoError
register ds = if distinct (map (λ d. d.name) ds) then none else some (plain "duplicate metrics")

abbrev listen : Server Counter → Option GoError
listen s = some (sentinel server_closed)

register-Registers : Registers register
register-Registers ds e = rw e refl

abbrev run : CommandLine → End Counter
run line =
    main counter sockets no_rates plain_transport none register listen formats env line "2.0.0"

main-Ended_example :
    Ended counter sockets no_rates plain_transport none register listen formats env
      (parsed no_flags)
      "2.0.0"
      (run (parsed no_flags))
main-Ended_example =
    main-Ended counter sockets no_rates plain_transport none register listen formats env
      (parsed no_flags) "2.0.0" register-Registers counter-IsCounting

version_asked : run (parsed (record no_flags { version = true })) ≡ exits 0 "2.0.0"
unfolding main new_s3nd_conf
version_asked = refl

bad_flag :
    run (malformed "flag provided but not defined: -x")
    ≡ exits 2 "flag provided but not defined: -x"
unfolding main new_s3nd_conf
bad_flag = refl

closed : exit_code (some (sentinel server_closed)) ≡ 0
unfolding exit_code is
closed = refl

refused : exit_code (some (plain "address already in use")) ≡ 1
unfolding exit_code is
refused = refl

-- -upload-max-parallel 0
no_parts :
    run (parsed (record no_flags { upload_max_parallel = some (pos 0) }))
    ≡ panics "semaphore limit must be greater than 0"
unfolding main new_s3nd_conf start_handler new_s3nd_handler serve text_default
no_parts = refl
