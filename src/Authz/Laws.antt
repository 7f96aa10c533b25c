-- ===== src/Authz/Laws.antt =====
-- What Allow and AllowCollection of internal/authz/authz.go grant and refuse.
use nubilo.Prelude.{◌≤◌, ◌≡◌, Bool, true, false, ◌⊎◌, some, arith}
use nubilo.Identity.Device.{
  Device, Role, revoked, system, is_admin, is_role_dav, is_user_admin, has_protocol,
  default_permissions,
}
use nubilo.Authz.{
  Action, Access, permitted, allow, allow_collection, sync_write, device_revoke, device_rename,
  metrics_read, backup_create, backup_restore, pair_start, user_admin, collection_admin, dav_write,
  caldav_write, carddav_write, photos_write, access_write, access_read, access_owner, device_list,
  dav_read, caldav_read, carddav_read,
}

-- The actions that administer the server.
abbrev pub is_admin_action : Action → Bool
is_admin_action device_revoke = true
is_admin_action device_rename = true
is_admin_action metrics_read = true
is_admin_action backup_create = true
is_admin_action backup_restore = true
is_admin_action pair_start = true
is_admin_action user_admin = true
is_admin_action _ = false

-- The actions that change a collection's data.
abbrev pub is_write_action : Action → Bool
is_write_action sync_write = true
is_write_action dav_write = true
is_write_action caldav_write = true
is_write_action carddav_write = true
is_write_action photos_write = true
is_write_action _ = false

permitted_admin :
    (d : Device) (a : Action) → is_admin_action a ≡ true → permitted d a ≡ true → is_admin d ≡ true
unfolding permitted
permitted_admin d a h p = ground arith

-- An administrative action is granted only to a device that is not revoked and is a system device
-- or a non-DAV device of an admin user.
pub allow_admin_action :
    (d : Device) (a : Action)
    → is_admin_action a ≡ true
    → allow (some d) a ≡ true
    → (revoked d ≡ false)
      × ((system d ≡ true) ⊎ ((is_user_admin d.user_role ≡ true) × (is_role_dav d.role ≡ false)))
unfolding allow is_admin
allow_admin_action d a h p = ground (arith, permitted_admin d a h)

abbrev pub is_collection_admin : Action → Bool
is_collection_admin collection_admin = true
is_collection_admin _ = false

-- A collection action is granted only to a device that is not revoked, at an access of read or more,
-- of write or more if it changes data, and of owner if it administers the collection.
pub granted_levels :
    (d : Device) (a : Action) (acc : Access)
    → allow_collection (some d) a acc ≡ true
    → (revoked d ≡ false)
      × (access_read ≤ acc)
      × ((is_write_action a ≡ false) ⊎ (access_write ≤ acc))
      × ((is_collection_admin a ≡ false) ⊎ (access_owner ≤ acc))
unfolding allow_collection allow
granted_levels d a acc h = ground arith

-- The actions that an app password with the default DAV permissions can be granted.
abbrev pub is_dav_action : Action → Bool
is_dav_action device_list = true
is_dav_action collection_admin = true
is_dav_action dav_read = true
is_dav_action dav_write = true
is_dav_action caldav_read = true
is_dav_action caldav_write = true
is_dav_action carddav_read = true
is_dav_action carddav_write = true
is_dav_action _ = false

-- A DAV device of a user, with the default DAV permissions, is granted no sync, photo or
-- administrative action, whoever its user is.
pub dav_device_scope :
    (d : Device) (a : Action)
    → d.role ≡ Role.dav
    → d.permissions ≡ default_permissions Role.dav
    → allow (some d) a ≡ true
    → is_dav_action a ≡ true
unfolding allow default_permissions has_protocol is_admin
dav_device_scope d a r p h = ground arith
