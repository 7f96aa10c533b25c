-- ===== src/Identity/Devices.antt =====
-- What changes a device: Revoke, Rename, RotatePublicKey, Enroll and Touch of
-- internal/identity/identity.go. The cache of Basic logins and the table of nonces, which Revoke and
-- RotatePublicKey clear too, are not modelled.
use nubilo.Prelude.{
  ℕ, ◌+◌, String, Bool, true, not, ◌&&◌, Option, none, some, List, [], ◌∷◌, ◌++◌, ◌==◌, nat_eq, ltb,
  length, any_row, update, if◌then◌else◌,
}
use nubilo.Identity.Device.{Device, Role, default_permissions}
use nubilo.Identity.Names.{sanitize_name}
use nubilo.Identity.Pairing.{or_client}
use nubilo.Identity.Users.{Hook, resolve_user, revoked_by}
use nubilo.Store.{Db, User, AppPassword, is_null}
use nubilo.Store.Env.{Env}
use nubilo.Store.Tx.{Result, ok, err, not_found, unique, bad_key}

-- UPDATE devices … WHERE, and ErrNotFound where no row is affected.
unfoldable pub update_devices : (Device → Bool) → (Device → Device) → Db → Result (Unit {0}) × Db
update_devices p f db =
    if any_row p db.devices
    then (ok tt, record db { devices = update p f db.devices })
    else (err not_found, db)

abbrev pub revoke_passwords : String → ℕ → Db → Db
revoke_passwords id now db = record db {
  app_passwords =
      update (λ (p : AppPassword). p.device_id == id)
        (λ (p : AppPassword). record p { revoked_at = revoked_by now p.revoked_at })
        db.app_passwords;
}

unfoldable pub revoke_device : String → ℕ → Db → Result (Unit {0}) × Db
unfolding update_devices
revoke_device id now db =
    let (r, after) =
      update_devices (λ (d : Device). d.id == id)
        (λ (d : Device). record d { revoked_at = revoked_by now d.revoked_at }) db in
    (r, elim r [ ok u ↦ revoke_passwords id now after | err e ↦ after ])

unfoldable pub rename_device : Env → String → String → Db → Result (Unit {0}) × Db
unfolding sanitize_name update_devices
rename_device env id name db = elim (sanitize_name env name) [
  | err e ↦ (err e, db)
  | ok n ↦ update_devices (λ (d : Device). d.id == id) (λ (d : Device). record d { name = n }) db
]

-- A revoked device keeps its key.
unfoldable pub rotate_public_key : String → List ℕ → Db → Result (Unit {0}) × Db
unfolding update_devices
rotate_public_key id key db =
    if not (nat_eq (length key) 32)
    then (err bad_key, db)
    else update_devices (λ (d : Device). d.id == id && is_null d.revoked_at)
        (λ (d : Device). record d { public_key = key }) db

-- last_seen IS NULL OR last_seen < now - 60000
abbrev pub is_stale : ℕ → Option ℕ → Bool
is_stale now none = true
is_stale now (some t) = ltb (t + 60000) now

unfoldable pub touch_device : String → ℕ → Db → Db
touch_device id now db = record db {
  devices =
      update (λ (d : Device). d.id == id && is_stale now d.last_seen)
        (λ (d : Device). record d { last_seen = some now }) db.devices;
}

abbrev pub enrolled : String → ℕ → String → List ℕ → Role → User → Device
enrolled id now name key role u = record {
  id = id;
  name = name;
  public_key = key;
  role = or_client role;
  permissions = default_permissions (or_client role);
  created_at = now;
  last_seen = some now;
  revoked_at = none;
  user_id = u.id;
  user_role = u.role;
  user_status = u.status;
}

abbrev pub insert_enrolled :
    String → ℕ → String → List ℕ → Role → Result User × Db → Result Device × Db
insert_enrolled id now name key role (err e, db) = (err e, db)
insert_enrolled id now name key role (ok u, db) =
    let dev = enrolled id now name key role u in
    if not (nat_eq (length key) 32)
    then (err bad_key, db)
    else if any_row (λ (d : Device). d.id == id) db.devices
    then (err unique, db)
    else (ok dev, record db { devices = db.devices ++ dev ∷ [] })

unfoldable pub enroll :
    Env → Hook → String → String → ℕ → String → String → List ℕ → Role → Db → Result Device × Db
unfolding sanitize_name resolve_user
enroll env hook owner id now user_id name key role db = elim (sanitize_name env name) [
  | err e ↦ (err e, db)
  | ok n ↦ insert_enrolled id now n key role (resolve_user env hook owner now user_id db)
]
