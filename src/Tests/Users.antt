-- ===== src/Tests/Users.antt =====
-- Witnesses of the users' operations.
use nubilo.Prelude.{◌≡◌, ◌≢◌, refl, true, [], ◌∷◌, any_row, find_row, update, select, order_by}
use nubilo.Prelude.Int.{pos, i64, ◌-ℤ◌}
use nubilo.Identity.Device.{Device, UserRole, UserStatus, revoked}
use nubilo.Store.{Db, empty_db}
use nubilo.Store.Tx.{ok, with_write}
use nubilo.Identity.Users.{
  Hook, active_admin, create_user, create_user_tx, insert_user, new_username, set_user_role,
  set_user_status, set_user_status_tx, ensure_owner, ensure_other_admin, update_user, revoke_all,
  find_username,
}
use nubilo.Identity.Names.{
  normalize_username, is_reserved, sanitize_name, has_nul, letter_or_digit, all_username_chars,
  username_char,
}
use nubilo.Identity.Users.History.{done, next, status_set, role_set, admin_remains}
use nubilo.Identity.LockedOut
use nubilo.Identity.LockedOut.{status_changed, disabled_locked_out}
use nubilo.Auth.Nonces.{consume_nonce}
use nubilo.Auth.Request.{authenticate_signed, get_device, joined, check_device}
use nubilo.Sync.Access.{find_user}
use nubilo.Tests.World.{env, world, phone, laptop, user_of}
use nubilo.Tests.Auth.{zeros, fresh, at}

abbrev pub no_hook : Hook
no_hook u db = (ok tt, db)

abbrev pub owned : Db
owned = (ensure_owner env no_hook "owner-id" 5 empty_db).1

abbrev demoted : Db
demoted = (set_user_role "owner-id" UserRole.member owned).1

-- The only admin is neither demoted nor disabled.
admin_remains_example :
    any_row active_admin (set_user_status "owner-id" UserStatus.disabled 7 demoted).1.users ≡ true
unfolding ensure_owner create_user create_user_tx insert_user new_username normalize_username
    is_reserved sanitize_name has_nul find_username find_row any_row select order_by with_write
    letter_or_digit all_username_chars username_char
admin_remains_example =
    admin_remains env no_hook "owner-id" 5 empty_db
      (set_user_status "owner-id" UserStatus.disabled 7 demoted).1
      (record (user_of "owner-id") {
        username = "owner";
        display_name = "Owner";
        created_at = 5;
        quota_bytes = pos 0;
      })
      (λ u db h. h) refl
      (next (role_set "owner-id" UserRole.member)
        (next (status_set "owner-id" UserStatus.disabled 7) done))

abbrev keyed : Device
keyed = record phone { public_key = zeros 32 }

abbrev server : Db
server = record world { devices = keyed ∷ record laptop { public_key = zeros 32 } ∷ [] }

-- Ben is disabled and enabled again, and Anna's phone is accepted.
disabled_locked_out_example : keyed.user_id ≢ "ben"
unfolding set_user_status set_user_status_tx ensure_other_admin update_user revoke_all with_write
    any_row update authenticate_signed check_device consume_nonce get_device joined find_user
    find_row revoked i64 ◌-ℤ◌
disabled_locked_out_example =
    disabled_locked_out env "ben" 5 server
      (set_user_status "ben" UserStatus.active 6
        (set_user_status "ben" UserStatus.disabled 5 server).1).1
      (at (pos 1000000) 1000010 1000020) fresh keyed refl
      (LockedOut.next (status_changed "ben" UserStatus.active 6) LockedOut.done) refl
