-- ===== src/Version.antt =====
-- version/handler.go: the answer to a request for the version and the configuration.
pub mod Json
use deliverator.Base.{ℕ, String, List}
use deliverator.Conf.{Conf, Formats, to_map}

-- VersionInfo. The map is a list, in the order in which ToMap writes it.
pub record VersionInfo : Type 0 where
  pub version : String
  pub config : List (String × String)

-- The response: its status, its Content-Type, and the body before it is encoded.
pub record VersionResponse : Type 0 where
  pub status : ℕ
  pub content_type : String
  pub body : VersionInfo

-- ServeHTTP. `version` is the variable Version of version/version.go, which the build sets.
unfoldable pub serve_version : Formats → String → Conf → VersionResponse
serve_version f version c = record {
  status = 200;
  content_type = "application/json";
  body = record { version = version; config = to_map f c };
}
