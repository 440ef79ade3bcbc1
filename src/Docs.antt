-- ===== src/Docs.antt =====
-- docs/docs.go: the documentation of the API that the service publishes, which gives for the answers
-- of each route their codes, their headers and the types of their JSON.
pub mod Conforms
pub mod Answers
mod Examples
use deliverator.Base.{
  ℕ, String, Bool, true, false, not, ◌&&◌, Option, none, some, List, [], ◌∷◌, ◌==◌, str_eq,
  if◌then◌else◌,
}
use deliverator.Conf.Numbers.{parse_int, itoa}
use deliverator.Upload.Json.{Value, text, numeral, object, Members, end, member}

-- A schema: a type of JSON values, or the properties of an object, or the schema of all values of an
-- object (`additionalProperties`).
mutual
  pub data Schema : Type 0 where
    string_type : Schema
    integer_type : Schema
    number_type : Schema
    object_type : Properties → Schema
    map_type : Schema → Schema

  pub data Properties : Type 0 where
    no_more : Properties
    property : String → Schema → Properties → Properties

-- The definition `task`.
abbrev pub task_properties : Properties
task_properties = property "file" string_type (
    property "id" string_type (
      property "slug" string_type (
        property "upload_attempts" integer_type (
          property "upload_parts" integer_type (
            property "upload_queued_seconds" number_type (
              property "upload_rate" string_type (
                property "upload_rate_bytes" number_type (
                  property "upload_size_bytes" integer_type (
                    property "upload_total" string_type (
                      property "upload_total_seconds" number_type (
                        property "upload_transfer_seconds" number_type
                          (property "uri" string_type no_more))))))))))))

-- The parts of the definitions of the statuses that do not differ.
abbrev pub request_status : Properties → Schema
request_status task = object_type (
    property "code" integer_type (
      property "msg" string_type
        (property "task" (object_type task) (property "version" string_type no_more))))

abbrev pub request_status_200 : Schema
request_status_200 = request_status task_properties

-- The task of an answer 400, 500 and 504, where it is not `task`.
abbrev pub task_400 : Properties
task_400 =
    property "file" string_type (property "id" string_type (property "slug" string_type no_more))

abbrev pub task_500 : Properties
task_500 = property "attempts" integer_type task_properties

abbrev pub task_504 : Properties
task_504 =
    property "file" string_type
      (property "id" string_type (property "slug" string_type (property "uri" string_type no_more)))

abbrev pub request_status_400 : Schema
request_status_400 = request_status task_400

abbrev pub request_status_404 : Schema
request_status_404 = request_status task_properties

abbrev pub request_status_408 : Schema
request_status_408 = request_status task_properties

abbrev pub request_status_500 : Schema
request_status_500 = request_status task_500

abbrev pub request_status_504 : Schema
request_status_504 = request_status task_504

abbrev pub version_info : Schema
version_info =
    object_type (property "config" (map_type string_type) (property "version" string_type no_more))

-- A documented response: the schema of its body, and whether it has the header X-Error.
pub record ResponseDoc : Type 0 where
  pub schema : Schema
  pub x_error : Bool

abbrev pub failure : Schema → ResponseDoc
failure s = record { schema = s; x_error = true }

-- The responses of POST /upload.
abbrev pub upload_responses : List (ℕ × ResponseDoc)
upload_responses =
    (200, record { schema = request_status_200; x_error = false })
    ∷ (400, failure request_status_400)
    ∷ (404, failure request_status_404)
    ∷ (408, failure request_status_408)
    ∷ (500, failure request_status_500)
    ∷ (504, failure request_status_504)
    ∷ []

abbrev pub find_response : List (ℕ × ResponseDoc) → ℕ → Option ResponseDoc
find_response [] code = none
find_response ((c, d) ∷ ds) code = if c == code then some d else find_response ds code

abbrev pub find_property : String → Properties → Option Schema
find_property key no_more = none
find_property key (property k s ps) = if str_eq k key then some s else find_property key ps

-- A numeral that is an int64 as strconv prints it.
abbrev pub is_integer : String → Bool
is_integer s = str_eq (itoa (parse_int s)) s

-- The meaning of a schema. A member that is not among the properties conforms, but not strictly.
module _ (strict : Bool) where
  unfoldable mutual
    pub conforms : Schema → Value → Bool
    conforms string_type (text s) = true
    conforms integer_type (numeral s) = is_integer s
    conforms number_type (numeral s) = true
    conforms (object_type ps) (object ms) = members_conform ps ms
    conforms (map_type s) (object ms) = values_conform s ms
    conforms _ _ = false

    pub members_conform : Properties → Members → Bool
    members_conform ps end = true
    members_conform ps (member k v ms) =
        elim (find_property k ps) [ none ↦ not strict | some s ↦ conforms s v ]
        && members_conform ps ms

    pub values_conform : Schema → Members → Bool
    values_conform s end = true
    values_conform s (member k v ms) = conforms s v && values_conform s ms
