-- ===== src/Store.antt =====
-- The database rows and the environment of the server: internal/store/schema.go,
-- internal/store/migrate.go and the record types of internal/syncengine/types.go. A table is a list of
-- rows; a nullable column is an Option where the SQL tells NULL from the empty text, and else a text
-- that is empty for NULL (store.NullString).
pub mod Env
pub mod Tx
pub mod Blobs
use nubilo.Prelude.{ℕ, ◌+◌, String, Bool, Option, none, some, List, [], ◌==◌}
use nubilo.Prelude.Int.{ℤ}
use nubilo.Identity.Device.{Device, Role, UserRole, UserStatus}

pub data Op : Type 0 where
  create update delete : Op
  other : String → Op

pub record User : Type 0 where
  pub id : String
  pub username : String
  pub display_name : String
  pub role : UserRole
  pub status : UserStatus
  pub created_at : ℕ
  pub quota_bytes : ℤ

pub record Group : Type 0 where
  pub id : String
  pub name : String

pub record Member : Type 0 where
  pub group_id : String
  pub user_id : String

pub record Collection : Type 0 where
  pub id : String
  pub kind : String
  pub name : String
  pub parent_id : Option String
  pub revision : ℕ
  pub metadata : String
  pub metadata_hash : String
  pub created_at : ℕ
  pub updated_at : ℕ
  pub deleted_at : Option ℕ
  pub owner_user_id : Option String
  pub root_id : Option String

pub record Share : Type 0 where
  pub collection_id : String
  pub principal_type : String
  pub principal_id : String
  pub access : String
  pub created_by : String
  pub created_at : ℕ

pub record Object : Type 0 where
  pub id : String
  pub collection_id : String
  pub kind : String
  pub revision : ℕ
  pub content_hash : String
  pub metadata_hash : String
  pub blob_id : String
  pub size : ℤ
  pub charged : ℤ
  pub origin_device : String
  pub metadata : String
  pub created_at : ℕ
  pub updated_at : ℕ
  pub deleted_at : Option ℕ

pub record Entry : Type 0 where
  pub seq : ℕ
  pub object_id : String
  pub collection_id : String
  pub op : Op
  pub revision : ℕ
  pub content_hash : String
  pub metadata_hash : String
  pub device_id : String
  pub ts : ℕ
  pub idempotency_key : String

pub record History : Type 0 where
  pub object_id : String
  pub revision : ℕ
  pub content_hash : String
  pub metadata_hash : String
  pub blob_id : String
  pub device_id : String
  pub ts : ℕ

pub record Blob : Type 0 where
  pub id : String
  pub size : ℤ
  pub refcount : ℕ
  pub created_at : ℕ

pub record BlobRef : Type 0 where
  pub user_id : String
  pub hash : String

pub record Cursor : Type 0 where
  pub device_id : String
  pub last_ack_seq : ℕ
  pub last_ack_at : ℕ

pub data Status : Type 0 where
  ok conflict error : Status

pub record PushResult : Type 0 where
  pub object_id : String
  pub status : Status
  pub revision : ℕ
  pub seq : ℕ
  pub server_revision : ℕ
  pub server_content_hash : String
  pub message : String

pub record Cached : Type 0 where
  pub key : String
  pub device_id : String
  pub results : List PushResult
  pub created_at : ℕ

-- A row of collection_prefs.
pub record PrefRow : Type 0 where
  pub user_id : String
  pub collection_id : String
  pub color : Option String
  pub sort_order : Option ℤ

-- A row of app_passwords, as far as a user's state goes.
pub record AppPassword : Type 0 where
  pub id : String
  pub device_id : String
  pub user_id : Option String
  pub revoked_at : Option ℕ

pub record PairingRow : Type 0 where
  pub id : String
  pub code_hash : List ℕ
  pub code_salt : List ℕ
  pub created_at : ℕ
  pub expires_at : ℕ
  pub attempts : ℕ
  pub completed_at : Option ℕ
  pub device_id : Option String
  pub challenge : Option (List ℕ)
  pub pending_pubkey : Option (List ℕ)
  pub pending_name : Option String
  pub pending_role : Option Role
  pub user_id : Option String

-- A row of devices is a Device; its user_role and user_status are not read, since the query that loads
-- a device joins them from its user's row.
-- `last_seq` is the AUTOINCREMENT counter of the journal: it never falls, also where rows go.
pub record Db : Type 0 where
  pub users : List User
  pub groups : List Group
  pub members : List Member
  pub collections : List Collection
  pub shares : List Share
  pub objects : List Object
  pub journal : List Entry
  pub last_seq : ℕ
  pub history : List History
  pub blobs : List Blob
  pub blob_refs : List BlobRef
  pub cursors : List Cursor
  pub idempotency : List Cached
  pub prefs : List PrefRow
  pub devices : List Device
  pub app_passwords : List AppPassword
  pub pairing_sessions : List PairingRow

abbrev pub empty_db : Db
empty_db = record {
  users = [];
  groups = [];
  members = [];
  collections = [];
  shares = [];
  objects = [];
  journal = [];
  last_seq = 0;
  history = [];
  blobs = [];
  blob_refs = [];
  cursors = [];
  idempotency = [];
  prefs = [];
  devices = [];
  app_passwords = [];
  pairing_sessions = [];
}

-- COALESCE(x, '').
abbrev pub or_empty : Option String → String
or_empty none = ""
or_empty (some s) = s

-- COALESCE(x, d).
abbrev pub coalesce : Option String → String → String
coalesce none d = d
coalesce (some s) d = s

-- x = s, where NULL equals nothing.
abbrev pub sql_eq : Option String → String → Bool
sql_eq none s = Bool.false
sql_eq (some t) s = t == s

-- deleted_at IS NULL.
abbrev pub is_null {ℓ} : {A : Type ℓ} → Option A → Bool
is_null none = Bool.true
is_null (some x) = Bool.false
