-- ===== src/Upload/Json.antt =====
-- The JSON of a status of upload/handler.go: what encoding/json makes of RequestStatus and
-- UploadTask by their tags, and what it reads back. RequestURL is a text there.
pub mod RoundTrip
pub mod Samples
mod Examples
use mathlib.Core.Option
use Prim.Native.String.{◌++◌ as ◌+++◌}
use deliverator.Base.{
  ℕ, String, Bool, true, false, not, ◌&&◌, Option, none, some, str_eq, if◌then◌else◌,
}
use deliverator.Base.Int.{ℤ, pos, pos_part, eq_ℤ}
use deliverator.Errors.{first}
use deliverator.Conf.Numbers.{parse_int, itoa}
use deliverator.Upload.Task.{Float64, Url, Task}
use deliverator.Upload.Serve.{RequestStatus}

-- The JSON values that a status is made of. A numeral is the text of a number.
mutual
  pub data Value : Type 0 where
    text : String → Value
    numeral : String → Value
    object : Members → Value

  pub data Members : Type 0 where
    end : Members
    member : String → Value → Members → Members

-- uuid.UUID's MarshalText and UnmarshalText, url.Parse, and the numeral of a float64, written and
-- read.
pub record Texts (F : Type 0) : Type 0 where
  pub uuid_text : ℕ → String
  pub parse_uuid : String → Option ℕ
  pub parse_url : String → Option Url
  pub float_text : F → String
  pub parse_float : String → Option F

-- RequestURL.MarshalText and RequestURL.UnmarshalText.
abbrev pub marshal_text : Url → String
marshal_text u = u.text

abbrev pub unmarshal_text : {F : Type 0} → Texts F → String → Option Url
unmarshal_text x s = x.parse_url s

-- A member that is left out where there is no value.
unfoldable pub put : String → Option (Value) → Members → Members
put key none ms = ms
put key (some v) ms = member key v ms

-- The value of a key: the last one counts.
unfoldable pub get : String → Members → Option (Value)
get key end = none
get key (member k v ms) = first (get key ms) (if str_eq k key then some v else none)

-- The values of fields by their tags: `omitempty` of a text and of a pointer to one, and `omitzero`
-- and `omitempty` of a number.
abbrev pub text_or_empty : String → Option (Value)
text_or_empty s = if str_eq s "" then none else some (text s)

abbrev pub text_or_nil : Option String → Option (Value)
text_or_nil o = Option.map text o

abbrev pub integer_or_zero : ℤ → Option (Value)
integer_or_zero z = if eq_ℤ z (pos 0) then none else some (numeral (itoa z))

module _ {F : Type 0} (fl : Float64 F) (x : Texts F) where
  abbrev pub number_or_zero : F → Option (Value)
  number_or_zero a = if fl.is_zero_f a then none else some (numeral (x.float_text a))

  -- The exported fields of UploadTask, in their order.
  unfoldable pub task_members : Task F → Members
  task_members t = put "id" (some (text (x.uuid_text t.id))) (
      put "uri" (Option.map (λ u. text (marshal_text u)) t.uri) (
        put "file" (text_or_nil t.file) (
          put "slug" (text_or_nil t.slug) (
            put "upload_total" (text_or_empty t.upload_total) (
              put "upload_total_seconds" (number_or_zero t.upload_total_seconds) (
                put "upload_queued_seconds" (number_or_zero t.upload_queued_seconds) (
                  put "upload_transfer_seconds" (number_or_zero t.upload_transfer_seconds) (
                    put "upload_attempts" (integer_or_zero t.upload_attempts) (
                      put "upload_size_bytes" (some (numeral (itoa t.upload_size_bytes))) (
                        put "upload_rate" (text_or_empty t.upload_transfer_rate) (
                          put "upload_rate_bytes" (number_or_zero t.upload_transfer_rate_bytes)
                            (put "upload_parts" (integer_or_zero t.upload_parts) end))))))))))))

  -- The fields of RequestStatus. Its task is never nil.
  unfoldable pub status_members : RequestStatus F → Members
  status_members st = put "version" (some (text st.version)) (
      put "code" (some (numeral (itoa (pos st.code))))
        (put "msg" (text_or_empty st.msg) (put "task" (some (object (task_members st.task))) end)))

  -- json.Marshal fails on a float that is infinite or no number.
  abbrev pub is_encodable : Task F → Bool
  is_encodable t =
      fl.is_finite t.upload_total_seconds
      && fl.is_finite t.upload_queued_seconds
      && fl.is_finite t.upload_transfer_seconds
      && fl.is_finite t.upload_transfer_rate_bytes

  unfoldable pub marshal : RequestStatus F → Option (Value)
  unfolding status_members
  marshal st = if is_encodable st.task then some (object (status_members st)) else none

  -- json.NewEncoder(w).Encode: nothing is written where marshalling fails. `render` prints a value.
  abbrev pub encode : (Value → String) → RequestStatus F → String
  encode render st = elim (marshal st) [ none ↦ "" | some v ↦ render v +++ "\n" ]

  -- Fields as they are read: a missing key leaves the zero value, and a value of another kind is an
  -- error. Keys that differ in their case only, which encoding/json takes too, do not occur.
  abbrev pub read_text : Option (Value) → Option String
  read_text none = some ""
  read_text (some (text s)) = some s
  read_text (some _) = none

  abbrev pub read_pointer : {A : Type 0} → (String → Option A) → Option (Value) → Option (Option A)
  read_pointer parse none = some none
  read_pointer parse (some (text s)) = Option.map some (parse s)
  read_pointer parse (some _) = none

  -- An integer as strconv.Itoa prints it: -0 does not occur.
  abbrev pub read_integer : Option Value → Option ℤ
  read_integer none = some (pos 0)
  read_integer (some (numeral s)) =
      if str_eq (itoa (parse_int s)) s then some (parse_int s) else none
  read_integer (some _) = none

  abbrev pub read_number : Option Value → Option F
  read_number none = some fl.zero_f
  read_number (some (numeral s)) = x.parse_float s
  read_number (some _) = none

  abbrev pub read_uuid : Option (Value) → Option ℕ
  read_uuid none = some 0
  read_uuid (some (text s)) = x.parse_uuid s
  read_uuid (some _) = none

  infixl 5 ◌>>=◌
  abbrev ◌>>=◌ : {A B : Type 0} → Option A → (A → Option B) → Option B
  none >>= f = none
  some a >>= f = f a

  -- A task from its members; the fields that are not exported keep their zero values.
  unfoldable pub unmarshal_task : Members → Option (Task F)
  unmarshal_task ms = do
    id ← read_uuid (get "id" ms)
    uri ← read_pointer (unmarshal_text x) (get "uri" ms)
    file ← read_pointer some (get "file" ms)
    slug ← read_pointer some (get "slug" ms)
    upload_total ← read_text (get "upload_total" ms)
    upload_total_seconds ← read_number (get "upload_total_seconds" ms)
    upload_queued_seconds ← read_number (get "upload_queued_seconds" ms)
    upload_transfer_seconds ← read_number (get "upload_transfer_seconds" ms)
    upload_attempts ← read_integer (get "upload_attempts" ms)
    upload_size_bytes ← read_integer (get "upload_size_bytes" ms)
    upload_transfer_rate ← read_text (get "upload_rate" ms)
    upload_transfer_rate_bytes ← read_number (get "upload_rate_bytes" ms)
    upload_parts ← read_integer (get "upload_parts" ms)
    some (record {
      id = id;
      uri = uri;
      file = file;
      slug = slug;
      upload_total = upload_total;
      upload_total_seconds = upload_total_seconds;
      upload_queued_seconds = upload_queued_seconds;
      upload_transfer_seconds = upload_transfer_seconds;
      upload_attempts = upload_attempts;
      upload_size_bytes = upload_size_bytes;
      upload_transfer_rate = upload_transfer_rate;
      upload_transfer_rate_bytes = upload_transfer_rate_bytes;
      upload_parts = upload_parts;
      bucket = none;
      key = none;
      start_time = 0;
      transfer_start_time = 0;
      end_time = 0;
      upload_queued = false;
    })

  abbrev pub read_task : Option (Value) → Option (Task F)
  read_task (some (object ms)) = unmarshal_task ms
  read_task _ = none

  -- json.Unmarshal of a status. A status without a task does not occur.
  unfoldable pub unmarshal : Value → Option (RequestStatus F)
  unmarshal (object ms) = do
    version ← read_text (get "version" ms)
    code ← read_integer (get "code" ms)
    msg ← read_text (get "msg" ms)
    task ← read_task (get "task" ms)
    some (record { version = version; code = pos_part code; msg = msg; task = task })
  unmarshal _ = none
