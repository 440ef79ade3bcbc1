-- ===== src/Upload/Json/Examples.antt =====
-- The JSON of the status that the sample request is answered with.
use deliverator.Base.{◌≡◌, true, false, none, some}
use deliverator.Upload.Samples.{whole}
use deliverator.Upload.Serve.Run.{run}
use deliverator.Upload.Json.{Value, is_encodable, marshal, unmarshal}
use deliverator.Upload.Json.RoundTrip.{exported, unmarshal-marshal}
use deliverator.Upload.Json.Samples.{texts, run-IsReadable, run-code}

unmarshal-marshal_example :
    (is_encodable whole texts run.0.1.body.task ≡ false → marshal whole texts run.0.1.body ≡ none)
    × (is_encodable whole texts run.0.1.body.task ≡ true
        → (v : Value) × (marshal whole texts run.0.1.body ≡ some v)
          × (unmarshal whole texts v
              ≡ some (record run.0.1.body { task = exported run.0.1.body.task })))
unmarshal-marshal_example = unmarshal-marshal whole texts run.0.1.body run-IsReadable run-code
