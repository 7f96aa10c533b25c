-- ===== src/Authz.antt =====
-- Which actions a device may take, and which access a collection action needs:
-- internal/authz/authz.go. An error is ErrDenied, the only one that the package returns, so a
-- decision is a Bool: true for nil, false for ErrDenied.
pub mod Laws
use nubilo.Prelude.{
  ℕ, String, Bool, true, false, not, ◌&&◌, ◌||◌, Option, none, some, leb, nat_eq, if◌then◌else◌,
}
use nubilo.Identity.Device.{Device, has_protocol, revoked, is_admin, is_role_dav}

pub data Action : Type 0 where
  sync_read sync_write device_list device_revoke device_rename metrics_read backup_create : Action
  backup_restore pair_start user_admin dav_read dav_write caldav_read caldav_write : Action
  carddav_read carddav_write photos_read photos_write collection_admin : Action
  other : String → Action

-- `type Access int`, by its order: none, read, write, owner.
abbrev pub Access : Type 0
Access = ℕ

abbrev pub access_none : Access
access_none = 0

abbrev pub access_read : Access
access_read = 1

abbrev pub access_write : Access
access_write = 2

abbrev pub access_owner : Access
access_owner = 3

-- Access.String.
unfoldable pub access_string : Access → String
access_string acc =
    if nat_eq acc access_read
    then "ro"
    else if nat_eq acc access_write
    then "rw"
    else if nat_eq acc access_owner
    then "owner"
    else "none"

-- The switch of Allow, for a device that is not nil and not revoked.
unfoldable pub permitted : Device → Action → Bool
permitted d sync_read = has_protocol d.permissions "sync"
permitted d sync_write = has_protocol d.permissions "sync" && not (is_role_dav d.role)
permitted d device_list = true
permitted d collection_admin = true
permitted d dav_read = has_protocol d.permissions "webdav"
permitted d dav_write = has_protocol d.permissions "webdav"
permitted d caldav_read = has_protocol d.permissions "caldav"
permitted d caldav_write = has_protocol d.permissions "caldav"
permitted d carddav_read = has_protocol d.permissions "carddav"
permitted d carddav_write = has_protocol d.permissions "carddav"
permitted d photos_read = has_protocol d.permissions "photos" || has_protocol d.permissions "sync"
permitted d photos_write =
    if is_role_dav d.role
    then has_protocol d.permissions "photos"
    else has_protocol d.permissions "photos" || has_protocol d.permissions "sync"
permitted d device_revoke = is_admin d
permitted d device_rename = is_admin d
permitted d metrics_read = is_admin d
permitted d backup_create = is_admin d
permitted d backup_restore = is_admin d
permitted d pair_start = is_admin d
permitted d user_admin = is_admin d
permitted d (other a) = false

unfoldable pub allow : Option Device → Action → Bool
unfolding permitted
allow none action = false
allow (some d) action = if revoked d then false else permitted d action

-- The access that an action wants on the collection.
unfoldable pub wanted : Action → Access
wanted collection_admin = access_owner
wanted sync_write = access_write
wanted dav_write = access_write
wanted caldav_write = access_write
wanted carddav_write = access_write
wanted photos_write = access_write
wanted _ = access_read

unfoldable pub allow_collection : Option Device → Action → Access → Bool
unfolding wanted
allow_collection d action access = if allow d action then leb (wanted action) access else false
