-- ===== src/Upload/Json/RoundTrip.antt =====
-- A status of upload/handler.go that has been written as JSON is read back, but for the fields of
-- the task that are not exported.
use mathlib.Core.Option
use deliverator.Base.{
  ◌^◌, ◌<◌, String, ◌≡◌, refl, arith, true, false, Option, none, some, str_eq, if◌then◌else◌,
  eq_iff,
}
use deliverator.Base.Int.{ℤ, pos}
use deliverator.Errors.{first}
use deliverator.Conf.Numbers.{itoa}
use deliverator.Conf.Numbers.RoundTrip.{parse_int-itoa}
use deliverator.Upload.Task.{Float64, Url, Task}
use deliverator.Upload.Task.Integers.{Fits}
use deliverator.Upload.Serve.{RequestStatus}
use deliverator.Upload.Json.{
  Value, text, numeral, object, Members, Texts, marshal_text, unmarshal_text, put, get,
  text_or_empty, text_or_nil, integer_or_zero, number_or_zero, task_members, status_members,
  is_encodable, marshal, read_text, read_pointer, read_integer, read_number, unmarshal_task,
  unmarshal,
}

first-none {ℓ} : {A : Type ℓ} (o : Option A) → first o none ≡ o
first-none none = refl
first-none (some a) = refl

get-put :
    (key k : String) (o : Option Value) (ms : Members)
    → get key (put k o ms) ≡ first (get key ms) (if str_eq k key then o else none)
unfolding get put
get-put key k none ms = ground arith
get-put key k (some v) ms = refl

-- The task without its fields that are not exported.
abbrev pub exported : {F : Type 0} → Task F → Task F
exported t = record t {
  bucket = none;
  key = none;
  start_time = 0;
  transfer_start_time = 0;
  end_time = 0;
  upload_queued = false;
}

module _ {F : Type 0} (fl : Float64 F) (x : Texts F) where
  -- A float that is not -0, and whose numeral reads as it.
  abbrev pub IsFloat : F → Type 0
  IsFloat a = (fl.is_zero_f a ≡ true → a ≡ fl.zero_f) × (x.parse_float (x.float_text a) ≡ some a)

  -- A task whose id, URL and floats are those that their texts are read as, with int64 integers.
  pub record IsReadable (t : Task F) : Type 0 where
    pub id : x.parse_uuid (x.uuid_text t.id) ≡ some t.id
    pub uri : (u : Url) → t.uri ≡ some u → x.parse_url u.text ≡ some u
    pub total : IsFloat t.upload_total_seconds
    pub queued : IsFloat t.upload_queued_seconds
    pub transferred : IsFloat t.upload_transfer_seconds
    pub rate : IsFloat t.upload_transfer_rate_bytes
    pub attempts : Fits t.upload_attempts
    pub size : Fits t.upload_size_bytes
    pub parts : Fits t.upload_parts

  read-text : (s : String) → read_text fl x (text_or_empty s) ≡ some s
  read-text s = ground (arith, eq_iff s "")

  read-numeral : (z : ℤ) → Fits z → read_integer fl x (some (numeral (itoa z))) ≡ some z
  read-numeral z f = rw (parse_int-itoa z f.0 f.1, (eq_iff (itoa z) (itoa z)).1 refl)

  read-integer : (z : ℤ) → Fits z → read_integer fl x (integer_or_zero z) ≡ some z
  read-integer z f = ground (arith, read-numeral z f)

  read-number : (a : F) → IsFloat a → read_number fl x (number_or_zero fl x a) ≡ some a
  read-number a h = ground arith

  read-pointer : (o : Option String) → read_pointer fl x some (text_or_nil o) ≡ some o
  read-pointer none = refl
  read-pointer (some s) = refl

  read-uri :
      (o : Option Url)
      → ((u : Url) → o ≡ some u → x.parse_url u.text ≡ some u)
      → read_pointer fl x (unmarshal_text x) (Option.map (λ u. text (marshal_text u)) o) ≡ some o
  read-uri none h = refl
  read-uri (some u) h = rw (h u refl)

  task-members :
      (t : Task F) → IsReadable t → unmarshal_task fl x (task_members fl x t) ≡ some (exported t)
  unfolding unmarshal_task task_members get
  task-members t r =
      simp (get-put, first-none)
        (rw (
          r.id,
          read-uri t.uri r.uri,
          read-pointer t.file,
          read-pointer t.slug,
          read-text t.upload_total,
          read-number t.upload_total_seconds r.total,
          read-number t.upload_queued_seconds r.queued,
          read-number t.upload_transfer_seconds r.transferred,
          read-integer t.upload_attempts r.attempts,
          read-numeral t.upload_size_bytes r.size,
          read-text t.upload_transfer_rate,
          read-number t.upload_transfer_rate_bytes r.rate,
          read-integer t.upload_parts r.parts,
        ))

  status-members :
      (st : RequestStatus F)
      → IsReadable st.task
      → st.code < 2 ^ 63
      → unmarshal fl x (object (status_members fl x st))
        ≡ some (record st { task = exported st.task })
  unfolding unmarshal status_members get
  status-members st r c =
      simp (get-put, first-none)
        (rw (read-numeral (pos st.code) (omega arith, c), read-text st.msg, task-members st.task r))

  -- For a status with a code below 2 ^ 63, whose task has integers of an int64, an id, a URL and floats
  -- whose texts are read as these, and no float that is -0: it has no JSON if a float of the task is
  -- infinite or no number. Else it has, and reading that gives the status back, but for the fields of
  -- the task that are not exported: these are zero.
  pub unmarshal-marshal :
      (st : RequestStatus F)
      → IsReadable st.task
      → st.code < 2 ^ 63
      → (is_encodable fl x st.task ≡ false → marshal fl x st ≡ none)
        × (is_encodable fl x st.task ≡ true
            → (v : Value) × (marshal fl x st ≡ some v)
              × (unmarshal fl x v ≡ some (record st { task = exported st.task })))
  unfolding marshal
  unmarshal-marshal st r c =
      (λ e. rw e, λ e. (object (status_members fl x st), rw e, status-members st r c))
