-- ===== src/Version/Json.antt =====
-- The JSON of the version info of version/handler.go: what encoding/json makes of VersionInfo by its
-- tags, and what it reads back.
use mathlib.Core.Option
use deliverator.Base.{String, ◌≡◌, refl, Option, none, some, List, [], ◌∷◌, if◌then◌else◌, is_some}
use deliverator.Conf.{Conf, Formats, to_map}
use deliverator.Upload.Json.{Value, text, numeral, object, Members, end, member, put, get}
use deliverator.Version.{VersionInfo, serve_version}

-- A map of texts, whose keys are written in their order. That of ToMap's literal is this one.
unfoldable pub map_members : List (String × String) → Members
map_members [] = end
map_members ((k, v) ∷ vs) = member k (text v) (map_members vs)

-- `omitempty` of a map.
abbrev map_or_empty : List (String × String) → Option Value
map_or_empty [] = none
map_or_empty (v ∷ vs) = some (object (map_members (v ∷ vs)))

unfoldable pub marshal_version : VersionInfo → Value
unfolding put map_members
marshal_version i =
    object (put "version" (some (text i.version)) (put "config" (map_or_empty i.config) end))

-- The entries of a map of texts, as they are read: of a key, the last value counts.
unfoldable pub read_entries : Members → Option (List (String × String))
unfolding get
read_entries end = some []
read_entries (member k (text v) ms) =
    Option.map (λ vs. if is_some (get k ms) then vs else (k, v) ∷ vs) (read_entries ms)
read_entries (member k (numeral n) ms) = none
read_entries (member k (object o) ms) = none

abbrev read_version : Option Value → Option String
read_version none = some ""
read_version (some (text s)) = some s
read_version (some (numeral n)) = none
read_version (some (object o)) = none

unfoldable pub read_config : Option Value → Option (List (String × String))
unfolding read_entries
read_config none = some []
read_config (some (text s)) = none
read_config (some (numeral n)) = none
read_config (some (object ms)) = read_entries ms

-- json.Unmarshal of a value, into a VersionInfo.
unfoldable pub unmarshal_version : Value → Option VersionInfo
unfolding get read_config
unmarshal_version (text s) = none
unmarshal_version (numeral n) = none
unmarshal_version (object ms) = elim (read_version (get "version" ms)) [
  | none ↦ none
  | some v ↦ Option.map (λ c. record { version = v; config = c }) (read_config (get "config" ms))
]

-- What ServeHTTP writes is read as what it was.
pub unmarshal-serve_version :
    (f : Formats) (v : String) (c : Conf)
    → unmarshal_version (marshal_version (serve_version f v c).body)
      ≡ some (serve_version f v c).body
unfolding serve_version to_map marshal_version unmarshal_version read_config read_entries get put
    map_members
unmarshal-serve_version f v c = refl
