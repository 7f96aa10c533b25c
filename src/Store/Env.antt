-- ===== src/Store/Env.antt =====
-- What the server calls and does not implement: the ULID parser (internal/ids/ids.go), SHA-256,
-- encoding/json, the text functions of the standard library, the JSON functions of SQLite, and the
-- blob files on disk, which a push only looks at.
use nubilo.Prelude.{String, Bool, Option, List}
use nubilo.Prelude.Int.{ℤ}

-- A value of a decoded JSON object, as far as the program looks at it.
pub data Json : Type 0 where
  text : String → Json
  other : Json

-- json_extract of "mirror", read into an sql.NullBool, and of "mirror_device": `on` is none where the
-- value is no boolean, so that Scan fails, and false where it is missing.
pub record Mirror : Type 0 where
  pub on : Option Bool
  pub writer : String

pub record Env : Type 0 where
  pub valid_id : String → Bool
  pub sha256_hex : String → String
  pub unmarshal : String → Option (List (String × Json))
  pub to_lower : String → String
  pub to_upper : String → String
  pub trim_space : String → String
  pub equal_fold : String → String → Bool
  -- none where the metadata is no valid JSON
  pub json_mirror : String → Option Mirror
  pub blob_exists : String → Bool
  pub max_blob : ℤ
