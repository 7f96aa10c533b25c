-- ===== src/Identity/LockedOut.antt =====
-- After SetUserStatus (internal/identity/users.go) no device of a disabled user is let in
-- (AuthenticateRequest of internal/auth/auth.go), whatever is done to the devices that there are
-- (internal/identity/identity.go).
use nubilo.Prelude.{
  ℕ, ◌≡◌, ◌≢◌, refl, subst, inl, inr, String, Bool, true, false, ◌&&◌, Option, none, some, List,
  ◌==◌, arith, eq_iff, nat_eq, length, any_row, find_row, Bool-cases, Option-cases, Every-update,
  find_row-Every,
}
use nubilo.Identity.Device.{Device, UserStatus, revoked}
use nubilo.Identity.Devices.{
  update_devices, revoke_device, rename_device, rotate_public_key, touch_device, is_stale,
  revoke_passwords,
}
use nubilo.Identity.Names.{sanitize_name}
use nubilo.Identity.Users.{set_user_status, revoked_by}
use nubilo.Identity.Users.Disabled.{
  locked, LockedOut, set_user_status-keeps_locked, set_user_status-LockedOut,
}
use nubilo.Store.{Db, User, is_null}
use nubilo.Store.Env.{Env}
use nubilo.Store.Tx.{Result, ok, err}
use nubilo.Auth.Nonces.{Authenticator}
use nubilo.Auth.Request.{Request, accepted, joined, get_device, authenticate_signed}
use nubilo.Auth.Accepted.{signed_accepted}
use nubilo.Sync.Access.{find_user}

-- A call that changes users' status or the devices that there are, and the state that it leaves.
pub data DeviceStep (env : Env) : Db → Db → Type 0 where
  status_changed :
      {db : Db} (id : String) (status : UserStatus) (now : ℕ)
      → DeviceStep env db (set_user_status id status now db).1
  device_revoked : {db : Db} (id : String) (now : ℕ) → DeviceStep env db (revoke_device id now db).1
  device_renamed : {db : Db} (id name : String) → DeviceStep env db (rename_device env id name db).1
  key_rotated :
      {db : Db} (id : String) (key : List ℕ) → DeviceStep env db (rotate_public_key id key db).1
  device_touched : {db : Db} (id : String) (now : ℕ) → DeviceStep env db (touch_device id now db)

pub data DeviceSteps (env : Env) : Db → Db → Type 0 where
  done : {db : Db} → DeviceSteps env db db
  next :
      {db mid after : Db}
      → DeviceStep env db mid
      → DeviceSteps env mid after
      → DeviceSteps env db after

update_devices-LockedOut :
    (id : String) (p : Device → Bool) (f : Device → Device) (db : Db)
    → ((d : Device) → locked id d ≡ true → locked id (f d) ≡ true)
    → LockedOut id db
    → LockedOut id (update_devices p f db).1
unfolding update_devices
update_devices-LockedOut id p f db keep w = elim (Bool-cases (any_row p db.devices)) [
  | inl some_row ↦
      rw (update_devices, some_row)
        (Every-update (λ (d : Device). locked id d ≡ true) p f db.devices (λ d k _. keep d k) w)
  | inr no_row ↦ rw (update_devices, no_row) w
]

rename_device-LockedOut :
    (env : Env) (id dev name : String) (db : Db)
    → LockedOut id db
    → LockedOut id (rename_device env dev name db).1
unfolding rename_device
rename_device-LockedOut env id dev name db w = go (sanitize_name env name)
  where
    go :
        (t : Result String)
        → LockedOut id
            (elim t as (λ _. Result (Unit {0}) × Db) [
              | err e ↦ (err e, db)
              | ok n ↦
                  update_devices
                    (λ (d : Device). d.id == dev)
                    (λ (d : Device). record d { name = n })
                    db
            ]).1
    go (err e) = w
    go (ok n) =
        update_devices-LockedOut id (λ (d : Device). d.id == dev)
          (λ (d : Device). record d { name = n }) db (λ d k. k) w

revoke_device-LockedOut :
    (id dev : String) (now : ℕ) (db : Db)
    → LockedOut id db
    → LockedOut id (revoke_device dev now db).1
unfolding revoke_device
revoke_device-LockedOut id dev now db w =
    let f : Device → Device = λ d. record d { revoked_at = revoked_by now d.revoked_at } in
    go (update_devices (λ (d : Device). d.id == dev) f db).0
      (update_devices (λ (d : Device). d.id == dev) f db).1
      (update_devices-LockedOut id (λ (d : Device). d.id == dev) f db (λ d k. ground (arith, k)) w)
  where
    go :
        (t : Result (Unit {0})) (after : Db)
        → LockedOut id after
        → LockedOut id
            (elim t as (λ _. Db) [ ok u ↦ revoke_passwords dev now after | err e ↦ after ])
    go (ok u) after k = k
    go (err e) after k = k

step-LockedOut :
    (env : Env) (id : String) {db after : Db}
    → DeviceStep env db after
    → LockedOut id db
    → LockedOut id after
unfolding rotate_public_key touch_device
step-LockedOut env id (status_changed other status now) w =
    set_user_status-keeps_locked id other status now _ w
step-LockedOut env id (device_revoked dev now) w = revoke_device-LockedOut id dev now _ w
step-LockedOut env id (device_renamed dev name) w = rename_device-LockedOut env id dev name _ w
step-LockedOut env id (key_rotated {db} dev key) w =
    let f : Device → Device = λ d. record d { public_key = key } in
    let kept =
      update_devices-LockedOut id (λ (d : Device). d.id == dev && is_null d.revoked_at) f db
        (λ d k. k) w in
    elim (Bool-cases (nat_eq (length key) 32)) [ inl e ↦ rw e kept | inr e ↦ rw e w ]
step-LockedOut env id (device_touched {db} dev now) w =
    Every-update (λ (d : Device). locked id d ≡ true)
      (λ (d : Device). d.id == dev && is_stale now d.last_seen)
      (λ (d : Device). record d { last_seen = some now }) db.devices (λ d k _. k) w

steps-LockedOut :
    (env : Env) (id : String) {db after : Db}
    → DeviceSteps env db after
    → LockedOut id db
    → LockedOut id after
steps-LockedOut env id done w = w
steps-LockedOut env id (next s rest) w = steps-LockedOut env id rest (step-LockedOut env id s w)

joined-device :
    (o : Option User) (d : Device)
    → ((joined o d).user_id ≡ d.user_id) × ((joined o d).revoked_at ≡ d.revoked_at)
unfolding joined
joined-device none d = (refl, refl)
joined-device (some u) d = (refl, refl)

-- What the lookup of a request finds is no device of the user that is not revoked.
got_locked :
    (id dev : String) (db : Db) (d : Device)
    → LockedOut id db
    → get_device db dev ≡ some d
    → locked id d ≡ true
unfolding get_device
got_locked id dev db d w h =
    elim (Option-cases (find_row (λ (x : Device). x.id == dev) db.devices)) [
      | inl e ↦ absurd (ground (arith, e, h))
      | inr (x, e) ↦
          let old = find_row-Every (λ (y : Device). locked id y ≡ true) _ db.devices x w e in
          let same : joined (find_user db x.user_id) x ≡ d = ground (arith, e, h) in
          let parts = joined-device (find_user db x.user_id) x in
          subst (λ y. locked id y ≡ true) same (ground (arith, old, parts))
    ]

locked_open :
    (id : String) (d : Device) → locked id d ≡ true → (d.user_id == id) ≡ true → revoked d ≢ false
unfolding revoked
locked_open id d l own r = ground arith

-- Once SetUserStatus has disabled a user, no signed request of a device of that user is accepted, after any
-- sequence of calls of SetUserStatus, Revoke, Rename, RotatePublicKey and Touch, for this user and
-- others and whether or not they succeed: enabling the user again does not bring the devices back.
pub disabled_locked_out :
    (env : Env) (id : String) (now : ℕ) (db after : Db) (req : Request) (a : Authenticator)
    (d : Device)
    → (set_user_status id UserStatus.disabled now db).0 ≡ ok tt
    → DeviceSteps env (set_user_status id UserStatus.disabled now db).1 after
    → (authenticate_signed after req a).0 ≡ accepted d
    → d.user_id ≢ id
disabled_locked_out env id now db after req a d h steps k own =
    let still = steps-LockedOut env id steps (set_user_status-LockedOut id now db h) in
    let facts = signed_accepted after req a d k in
    let closed = got_locked id req.header.device_id after d still facts.0 in
    locked_open id d closed ((eq_iff d.user_id id).1 own) facts.1
