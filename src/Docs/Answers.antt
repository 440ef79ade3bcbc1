-- ===== src/Docs/Answers.antt =====
-- The answers of upload/handler.go and version/handler.go against the responses of docs/docs.go.
use deliverator.Base.{
  ◌+◌, ℕ, ◌^◌, ◌<◌, ◌≡◌, ◌⊎◌, inl, inr, refl, subst, ap, ◌∙◌, arith, String, Bool, true, false, not,
  ◌||◌, Option, none, some, List, >>=-eq-returned, returned-injective, ◌==◌, if◌then◌else◌, is_some,
  returned,
}
use deliverator.Errors.{GoError}
use deliverator.Base.Int.{pos_part}
use deliverator.Conf.{Conf, Formats, to_map}
use deliverator.Semaphore.{Msemaphore}
use deliverator.Upload.Task.{Float64, Task}
use deliverator.Upload.Metrics.{Event}
use deliverator.Upload.Handler.{Handler, Request, do_serve_http}
use deliverator.Upload.Serve.{Response, status_code, message, respond, serve_http}
use deliverator.Upload.Json.{Value, object, Texts, status_members, is_encodable, marshal, put}
use deliverator.Version.{serve_version}
use deliverator.Version.Json.{marshal_version, map_members}
use deliverator.Docs.{
  Properties, task_properties, task_400, task_500, task_504, request_status, ResponseDoc,
  upload_responses, find_response, version_info, conforms,
}
use deliverator.Docs.Conforms.{IsTask, status_conforms}
use deliverator.Upload.Task.Integers.{IsInt64}
use deliverator.Upload.Parse.Integers.{IsSize}
use deliverator.Upload.Serve.Integers.{do_serve_http-IsInt64}

-- The codes that ServeHTTP chooses.
status_code-cases :
    (e : Option GoError)
    → (status_code e ≡ 200)
      ⊎ (status_code e ≡ 400)
      ⊎ (status_code e ≡ 404)
      ⊎ (status_code e ≡ 408)
      ⊎ (status_code e ≡ 418)
      ⊎ (status_code e ≡ 500)
      ⊎ (status_code e ≡ 502)
      ⊎ (status_code e ≡ 504)
unfolding status_code
status_code-cases none = ground arith
status_code-cases (some e) = ground arith

-- The two codes whose documented task has fewer members than the task of an answer.
abbrev pub is_partial : ℕ → Bool
is_partial code = code == 400 || code == 504

some-unless : (b : Bool) (s : String) → is_some (if b then none else some s) ≡ not b
some-unless true s = refl
some-unless false s = refl

task_properties-IsTask : IsTask true task_properties
unfolding conforms
task_properties-IsTask = record {
  texts = λ s. (refl, (refl, (refl, (refl, (refl, (refl, tt))))));
  integers = λ s h. (h, (h, (h, tt)));
  numbers = λ s. (refl, (refl, (refl, (refl, tt))));
}

-- The documentation of a task that is answered with 400, 500 and 504.
task_400-IsTask : IsTask false task_400
unfolding conforms
task_400-IsTask = record {
  texts = λ s. (refl, (refl, (refl, (refl, (refl, (refl, tt))))));
  integers = λ s h. (refl, (refl, (refl, tt)));
  numbers = λ s. (refl, (refl, (refl, (refl, tt))));
}

task_500-IsTask : IsTask true task_500
unfolding conforms
task_500-IsTask = record {
  texts = λ s. (refl, (refl, (refl, (refl, (refl, (refl, tt))))));
  integers = λ s h. (h, (h, (h, tt)));
  numbers = λ s. (refl, (refl, (refl, (refl, tt))));
}

task_504-IsTask : IsTask false task_504
unfolding conforms
task_504-IsTask = record {
  texts = λ s. (refl, (refl, (refl, (refl, (refl, (refl, tt))))));
  integers = λ s h. (refl, (refl, (refl, tt)));
  numbers = λ s. (refl, (refl, (refl, (refl, tt))));
}

module _ {F : Type 0} (fl : Float64 F) (x : Texts F) where
  -- A response is as its documentation says: its body has the JSON of a value that conforms to the
  -- schema, strictly unless that describes the task in part; and it has the header x-error exactly
  -- if that is documented.
  pub record IsAsDocumented (resp : Response F) (d : ResponseDoc) : Type 0 where
    pub value : Value
    pub marshals : marshal fl x resp.body ≡ some value
    pub typed : conforms (not (is_partial resp.status)) d.schema value ≡ true
    pub header : is_some resp.x_error ≡ d.x_error

  -- A response is as the documentation of its code says, or has one of the codes without any, 418 and
  -- 502.
  abbrev pub Documented : Response F → Type 0
  Documented resp =
      ((d : ResponseDoc) × (find_response upload_responses resp.status ≡ some d)
        × IsAsDocumented resp d)
      ⊎ ((find_response upload_responses resp.status ≡ none)
          × ((resp.status ≡ 418) ⊎ (resp.status ≡ 502)))

  module _ (version : String) (t : Task F) (e : Option GoError) (ints : IsInt64 t)
      (finite : is_encodable fl x t ≡ true) where
    as_documented :
        (code : ℕ) (x_error : Bool) (ps : Properties)
        → status_code e ≡ code
        → code < 2 ^ 63
        → not (code == 200) ≡ x_error
        → IsTask (not (is_partial code)) ps
        → IsAsDocumented
            (respond version t e)
            (record { schema = request_status ps; x_error = x_error })
    unfolding respond marshal
    as_documented code x_error ps c small header d = record {
      value = object (status_members fl x (respond version t e).body);
      marshals = rw finite;
      typed = rw c (
          status_conforms _ fl x ps
            (record { version = version; code = code; msg = message e; task = t }) d ints small);
      header = rw c (some-unless (code == 200) (message e) ∙ header);
    }

    documented :
        (code : ℕ) (x_error : Bool) (ps : Properties)
        → status_code e ≡ code
        → code < 2 ^ 63
        → not (code == 200) ≡ x_error
        → IsTask (not (is_partial code)) ps
        → find_response upload_responses code
          ≡ some (record { schema = request_status ps; x_error = x_error })
        → Documented (respond version t e)
    unfolding respond
    documented code x_error ps c small header d found =
        inl (_, rw c found, as_documented code x_error ps c small header d)

    respond-Documented : Documented (respond version t e)
    unfolding respond
    respond-Documented = elim (status_code-cases e) [
      | inl c ↦
          documented 200 false task_properties c (omega arith) refl task_properties-IsTask refl
      | inr (inl c) ↦ documented 400 true task_400 c (omega arith) refl task_400-IsTask refl
      | inr (inr (inl c)) ↦
          documented 404 true task_properties c (omega arith) refl task_properties-IsTask refl
      | inr (inr (inr (inl c))) ↦
          documented 408 true task_properties c (omega arith) refl task_properties-IsTask refl
      | inr (inr (inr (inr (inl c)))) ↦ inr (rw c refl, inl c)
      | inr (inr (inr (inr (inr (inl c))))) ↦
          documented 500 true task_500 c (omega arith) refl task_500-IsTask refl
      | inr (inr (inr (inr (inr (inr (inl c)))))) ↦ inr (rw c refl, inr c)
      | inr (inr (inr (inr (inr (inr (inr c)))))) ↦
          documented 504 true task_504 c (omega arith) refl task_504-IsTask refl
    ]

  -- Whatever ServeHTTP answers, if the sizes of files are int64, the tries are fewer than the largest
  -- int64, and the floats of the task are finite: the only codes without documentation that the
  -- answer can have are 418 and 502, and with any other code it is as the documentation of the API
  -- says for that code. Its body has the JSON of a value of the documented type, which for a code
  -- other than 400 and 504 has no member that is not documented; and it has the header x-error exactly
  -- if that is documented.
  pub serve_http-Documented :
      {S : Type 0} (m : Msemaphore S) (r : Request S) (h h' : Handler S) (resp : Response F)
      (es : List (Event F))
      → pos_part h.conf.upload_tries + 1 < 2 ^ 63
      → ((file : String) → IsSize (r.form.stat file))
      → serve_http m fl r h ≡ returned (h', resp, es)
      → is_encodable fl x resp.body.task ≡ true
      → Documented resp
  unfolding serve_http respond
  serve_http-Documented m r h h' resp es few sizes e =
      let (s, made, e1) = >>=-eq-returned (do_serve_http m fl r h) _ e in
      subst (λ a. is_encodable fl x a.body.task ≡ true → Documented a)
        (ap (λ z. z.1) (returned-injective e1))
        (respond-Documented h.conf.version s.1 s.3
          (do_serve_http-IsInt64 m fl r h few sizes s made))

module _ (f : Formats) (version : String) (c : Conf) where
  -- The answer to a request for the version conforms strictly to its schema.
  pub serve_version-conforms :
      conforms true version_info (marshal_version (serve_version f version c).body) ≡ true
  unfolding conforms marshal_version serve_version to_map map_members put
  serve_version-conforms = refl
