-- ===== src/Tests/World.antt =====
-- A small server: two users, three collections, an object, and what the server does not implement as
-- concrete functions.
use nubilo.Prelude.{ℕ, String, true, false, not, ◌==◌, none, some, [], ◌∷◌}
use nubilo.Prelude.Int.{pos}
use nubilo.Identity.Device.{Device, Role, UserRole, UserStatus, default_permissions}
use nubilo.Store.{Db, Op, User, Collection, Object, Entry, Share, PushResult, Status, empty_db}
use nubilo.Store.Env.{Env}
use nubilo.Store.Tx.{Result, ok, err}
use nubilo.Sync.Types.{ChangeInput}

abbrev pub env : Env
env = record {
  valid_id = λ s. not (s == "");
  sha256_hex = λ s. s;
  unmarshal = λ s. none;
  to_lower = λ s. s;
  to_upper = λ s. s;
  trim_space = λ s. s;
  equal_fold = ◌==◌;
  json_mirror = λ s. none;
  blob_exists = λ s. true;
  max_blob = pos 1000;
}

abbrev device_of : String → String → Role → UserRole → Device
device_of id user role user_role = record {
  id = id;
  name = id;
  public_key = [];
  role = role;
  permissions = default_permissions role;
  created_at = 1;
  last_seen = none;
  revoked_at = none;
  user_id = user;
  user_role = user_role;
  user_status = UserStatus.active;
}

abbrev pub phone : Device
phone = device_of "phone" "anna" Role.client UserRole.admin

abbrev pub dav_login : Device
dav_login = device_of "dav" "anna" Role.dav UserRole.admin

abbrev pub laptop : Device
laptop = device_of "laptop" "ben" Role.client UserRole.member

abbrev pub user_of : String → User
user_of id = record {
  id = id;
  username = id;
  display_name = id;
  role = UserRole.admin;
  status = UserStatus.active;
  created_at = 1;
  quota_bytes = pos 50;
}

abbrev pub folder : String → String → Collection
folder id owner = record {
  id = id;
  kind = "files";
  name = id;
  parent_id = none;
  revision = 1;
  metadata = "{}";
  metadata_hash = "{}";
  created_at = 1;
  updated_at = 1;
  deleted_at = none;
  owner_user_id = some owner;
  root_id = none;
}

abbrev pub note : Object
note = record {
  id = "note";
  collection_id = "files";
  kind = "file";
  revision = 3;
  content_hash = "c3";
  metadata_hash = "m3";
  blob_id = "";
  size = pos 5;
  charged = pos 7;
  origin_device = "phone";
  metadata = "{}";
  created_at = 1;
  updated_at = 1;
  deleted_at = none;
}

abbrev pub share_row : Share
share_row = record {
  collection_id = "files";
  principal_type = "user";
  principal_id = "ben";
  access = "rw";
  created_by = "anna";
  created_at = 1;
}

abbrev pub entry_row : ℕ → ℕ → Entry
entry_row seq rev = record {
  seq = seq;
  object_id = "note";
  collection_id = "files";
  op = Op.update;
  revision = rev;
  content_hash = "c3";
  metadata_hash = "m3";
  device_id = "phone";
  ts = 1;
  idempotency_key = "k";
}

abbrev pub world : Db
world = record empty_db {
  users = user_of "anna" ∷ user_of "ben" ∷ [];
  collections = folder "files" "anna" ∷ folder "trash" "anna" ∷ folder "bens" "ben" ∷ [];
  shares = share_row ∷ [];
  objects = note ∷ [];
  journal = entry_row 2 2 ∷ entry_row 4 3 ∷ [];
  last_seq = 4;
}

abbrev pub change : Op → String → String → ℕ → ChangeInput
change op object collection base = record {
  object_id = object;
  collection_id = collection;
  kind = "file";
  op = op;
  base_revision = base;
  content_hash = "c4";
  metadata_hash = "";
  metadata = none;
  blob_id = "";
  size = pos 6;
  force = false;
}

abbrev pub returned : Result (PushResult × Db) → PushResult × Db
returned (ok r) = r
returned (err e) = (
  record {
    object_id = "";
    status = Status.error;
    revision = 0;
    seq = 0;
    server_revision = 0;
    server_content_hash = "";
    message = "";
  },
  empty_db,
)
