-- ===== src/Lib.antt =====
-- The library `deliverator`: s3nd, the service of this repository that uploads files to S3 when it
-- is asked to by an HTTP request.
--
-- A request names a file and an s3 URI. The handler checks it, waits for as many units of a weighted
-- semaphore as the file has parts, shares the bandwidth limit out to the connections, tries the
-- upload a number of times with growing timeouts, and answers with a status code and the task. A
-- tracker knows every connection to the endpoint, sets its pacing rate and sums its statistics.
--
-- The parts, and the files that model them:
--   * util/divceil.go, DivCeil: Util (`div_ceil`).
--   * upload/badrequesterror, and the error values as errors.Is and errors.As see them: Errors.
--   * conf/conf.go, NewS3ndConf, ToMap, UploadBwlimitBytes: Conf (`new_s3nd_conf`, which is
--     `configure` where flag.Parse returns, and `to_map`).
--   * semaphore/semaphore.go: Semaphore. `acquire` is one call of Acquire, among changes that others
--     make meanwhile. Semaphore/System has any number of goroutines, and one step for every access
--     that one of them makes to the shared state.
--   * conntracker/conntracker.go: ConnTracker/Tracker (`dial_context`, `set_pacing_rate`, `close`,
--     `mark_closed`, `tcp_info`), with addTcpInfo in ConnTracker/TcpInfo. ConnTracker/Lifecycle has
--     the sequences of operations, ConnTracker/Ledger and ConnTracker/Monotone the statistics over
--     such a sequence, and ConnTracker/Order what depends on the order of the map.
--   * upload/handler.go: Upload/Task (UploadTask), Upload/Parse (parseRequest), Upload/Multipart
--     (UploadTimeout, uploadFileMultipart), Upload/Handler (doServeHTTP, updatePacingRate),
--     Upload/Serve (ServeHTTP), Upload/Metrics (the Prometheus metrics as the calls on them),
--     Upload/Json (the JSON value of the answer, `marshal`, and its reading, `unmarshal`).
--     Upload/Concurrent has any number of requests and of calls of DialContext, with one step for
--     every access to the semaphore, the recorded rate and the mutex; Upload/Concurrent/Lock is the
--     lock of units that these steps implement. Upload/Clients has the settings of the HTTP transport
--     and of the S3 clients (`start_handler`, all of NewS3ndHandler). Upload/Logs has the record that
--     updatePacingRate logs (`log_uploads`).
--   * collector/collector.go, Describe and Collect: Collector (`descs`, `collect`), in
--     Collector/Readings while requests are served.
--   * version/handler.go: Version (`serve_version`), with its JSON value in Version/Json.
--   * client/client.go: Client (`upload`, `upload_multi`, `version`), in Client/Serves and
--     Client/Restart against the handlers.
--   * docs/docs.go: Docs (`upload_responses` and the schemas, `conforms`), with the answers of the
--     handlers against it in Docs/Answers.
--   * cmd/s3nd/main.go: Main (`main`).
-- The other files under a part hold its proofs, and Examples its tests. Base holds what is shared.
--
-- State and errors. A struct is a record, and a method that changes it returns the new record. An
-- operation that can panic returns an `Outcome`, with `panicked` for the panic. A Go error is a
-- `GoError`, and nil is `none`. Integers of 64 bits are a ℤ whose arithmetic wraps where the code
-- computes with it (`wrap64`), and unsigned ones are natural numbers with `% 2 ^ w`.
--
-- The loop of attempts runs on the rounds that its condition leaves, UploadTries of them: the loop
-- returns in the last round at the latest, so that no other bound is needed. The waiting in Acquire
-- runs on the list of what other goroutines did before each look for room; at its end the context
-- is done.
--
-- What the source only calls is a parameter: the S3 upload manager, the semaphore of marusama with
-- the laws of its documentation (its New may panic), dialing and socket options, the form of the
-- request, net/url, os.Stat and os.Open, the clock, uuid.New, time.ParseDuration,
-- resource.ParseQuantity, and float64 arithmetic with its formatting, what the package flag makes
-- of the command line, the metrics that the registry sends, what ListenAndServe and the
-- registration of a collector return. In Upload/Handler, what other goroutines do to the handler
-- while one request is queued or uploads is a parameter too; in Upload/Concurrent they are steps
-- of the same relation.
--
-- Not modelled: the log records that only print a task or an error, the text of a JSON value, the
-- libraries that the routes and the clients are made of, and of the generated documentation of the
-- API its texts, its examples and the parameters of the requests. In ConnTracker/Lifecycle the
-- operations of the tracker are steps one after another.
pub mod Base
pub mod Util
pub mod Errors
pub mod Conf
pub mod Semaphore
pub mod ConnTracker
pub mod Upload
pub mod Collector
pub mod Version
pub mod Client
pub mod Docs
pub mod Main
