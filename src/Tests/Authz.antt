-- ===== src/Tests/Authz.antt =====
-- Witnesses of Authz/Laws.
use nubilo.Prelude.{◌≡◌, ◌≤◌, refl, true, false, ◌⊎◌}
use nubilo.Identity.Device.{
  revoked, system, is_admin, is_user_admin, is_role_dav, has_protocol, default_permissions,
}
use nubilo.Authz.{
  allow, allow_collection, pair_start, sync_write, caldav_write, access_read, access_write,
  access_owner,
}
use nubilo.Authz.Laws.{
  allow_admin_action, granted_levels, dav_device_scope, is_write_action, is_collection_admin,
  is_dav_action,
}
use nubilo.Tests.World.{phone, dav_login}

allow_admin_action_example :
    (revoked phone ≡ false)
    × ((system phone ≡ true)
        ⊎ ((is_user_admin phone.user_role ≡ true) × (is_role_dav phone.role ≡ false)))
unfolding allow is_admin
allow_admin_action_example = allow_admin_action phone pair_start refl refl

granted_levels_example :
    (revoked phone ≡ false)
    × (access_read ≤ 2)
    × ((is_write_action sync_write ≡ false) ⊎ (access_write ≤ 2))
    × ((is_collection_admin sync_write ≡ false) ⊎ (access_owner ≤ 2))
unfolding allow_collection allow has_protocol default_permissions revoked
granted_levels_example = granted_levels phone sync_write 2 refl

dav_device_scope_example : is_dav_action caldav_write ≡ true
unfolding allow has_protocol default_permissions revoked
dav_device_scope_example = dav_device_scope dav_login caldav_write refl refl refl
