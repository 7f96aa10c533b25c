-- ===== src/Identity/Device.antt =====
-- The device record and its predicates: internal/identity/identity.go. `system` and `is_admin` are
-- the methods at a device that is not nil; the callers that pass nil test for it themselves.
use nubilo.Prelude.{
  ℕ, String, Bool, true, false, not, ◌&&◌, ◌||◌, List, [], ◌∷◌, Option, none, some, ◌==◌,
  if◌then◌else◌,
}

-- `other` is any role string that the program does not name.
pub data Role : Type 0 where
  admin agent client dav : Role
  other : String → Role

pub data UserRole : Type 0 where
  admin member : UserRole
  other : String → UserRole

-- users.status; `other ""` is the status of a device that has no user row.
pub data UserStatus : Type 0 where
  active disabled : UserStatus
  other : String → UserStatus

abbrev pub is_active : UserStatus → Bool
is_active UserStatus.active = true
is_active _ = false

abbrev pub is_disabled : UserStatus → Bool
is_disabled UserStatus.disabled = true
is_disabled _ = false

abbrev pub is_role_admin : Role → Bool
is_role_admin Role.admin = true
is_role_admin _ = false

abbrev pub is_role_dav : Role → Bool
is_role_dav Role.dav = true
is_role_dav _ = false

abbrev pub is_user_admin : UserRole → Bool
is_user_admin UserRole.admin = true
is_user_admin _ = false

abbrev pub is_some {ℓ} : {A : Type ℓ} → Option A → Bool
is_some none = false
is_some (some x) = true

pub record Permissions : Type 0 where
  pub role : Role
  pub collections : List String
  pub protocols : List String
  pub admin : Bool

unfoldable pub default_permissions : Role → Permissions
default_permissions Role.admin = record {
  role = Role.admin;
  collections = "*" ∷ [];
  protocols = "sync" ∷ "api" ∷ [];
  admin = true;
}
default_permissions Role.agent = record {
  role = Role.agent;
  collections = "*" ∷ [];
  protocols = "sync" ∷ "api" ∷ [];
  admin = false;
}
default_permissions Role.client = record {
  role = Role.client;
  collections = "*" ∷ [];
  protocols = "sync" ∷ "api" ∷ [];
  admin = false;
}
default_permissions Role.dav = record {
  role = Role.dav;
  collections = "*" ∷ [];
  protocols = "caldav" ∷ "carddav" ∷ "webdav" ∷ [];
  admin = false;
}
default_permissions (Role.other r) = record {
  role = Role.other r;
  collections = "*" ∷ [];
  protocols = [];
  admin = false;
}

-- The loop of HasProtocol and of CanCollection: an entry that is the name or "*".
unfoldable pub lists_name : List String → String → Bool
lists_name [] name = false
lists_name (x ∷ xs) name = if x == name || x == "*" then true else lists_name xs name

unfoldable pub has_protocol : Permissions → String → Bool
unfolding lists_name
has_protocol p proto = lists_name p.protocols proto

unfoldable pub can_collection : Permissions → String → Bool
unfolding lists_name
can_collection p id = lists_name p.collections id

pub record Device : Type 0 where
  pub id : String
  pub name : String
  pub public_key : List ℕ
  pub role : Role
  pub permissions : Permissions
  pub created_at : ℕ
  pub last_seen : Option ℕ
  pub revoked_at : Option ℕ
  pub user_id : String
  pub user_role : UserRole
  pub user_status : UserStatus

unfoldable pub revoked : Device → Bool
revoked d = is_some d.revoked_at || is_disabled d.user_status

unfoldable pub system : Device → Bool
system d = d.user_id == "" && is_role_admin d.role

unfoldable pub is_admin : Device → Bool
unfolding revoked system
is_admin d =
    if revoked d
    then false
    else if system d
    then true
    else is_user_admin d.user_role && not (is_role_dav d.role)
