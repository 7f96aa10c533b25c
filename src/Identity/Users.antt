-- ===== src/Identity/Users.antt =====
-- Users: internal/identity/users.go. An id that ids.New makes is an argument of the operation that
-- stores it. `hook` is OnUserCreated, which the server sets when it starts.
pub mod Admins
pub mod Kept
pub mod Apart
pub mod History
pub mod Disabled
use nubilo.Prelude.{
  ℕ, ◌+◌, String, Bool, true, false, not, ◌&&◌, ◌||◌, Option, none, some, List, [], ◌∷◌, ◌++◌, ◌==◌,
  any_row, find_row, select, update, order_by, if◌then◌else◌,
}
use nubilo.Prelude.Int.{ℤ, pos, ltb_ℤ}
use nubilo.Identity.Device.{Device, UserRole, UserStatus, is_active, is_user_admin, is_disabled}
use nubilo.Identity.Names.{normalize_username, sanitize_name, is_reserved}
use nubilo.Store.{Db, User, AppPassword, sql_eq}
use nubilo.Store.Env.{Env}
use nubilo.Store.Tx.{
  Tx, Result, Err, ok, err, not_found, username, user_exists, user_disabled, user_role, last_admin,
  quota, pure, raise, lift, modify, with_write, ◌>>=◌, ◌>>◌,
}
use nubilo.Sync.Access.{find_user}

abbrev pub active_admin : User → Bool
active_admin u = is_user_admin u.role && is_active u.status

-- u.Active() && u.Admin() of a user that may be nil.
abbrev pub is_some_admin : Option User → Bool
is_some_admin none = false
is_some_admin (some u) = active_admin u

unfoldable pub find_username : Env → Db → String → Option User
find_username env db name =
    let n = env.to_lower (env.trim_space name) in find_row (λ (u : User). u.username == n) db.users

abbrev pub valid_user_role : UserRole → Bool
valid_user_role UserRole.admin = true
valid_user_role UserRole.member = true
valid_user_role (UserRole.other s) = false

abbrev pub default_role : UserRole → UserRole
default_role (UserRole.other s) = if s == "" then UserRole.member else UserRole.other s
default_role r = r

abbrev pub valid_status : UserStatus → Bool
valid_status UserStatus.active = true
valid_status UserStatus.disabled = true
valid_status (UserStatus.other s) = false

-- A reserved name is taken only from EnsureOwner.
unfoldable pub new_username : Env → String → Bool → Result String
unfolding normalize_username is_reserved
new_username env name reserved_ok =
    let n = env.to_lower (env.trim_space name) in
    elim (normalize_username env name) [
      | ok m ↦ ok m
      | err e ↦ if reserved_ok && is_reserved n then ok n else err e
    ]

unfoldable pub insert_user : Env → User → Tx User
unfolding sanitize_name
insert_user env u = do
  _ ← lift (sanitize_name env u.display_name)
  λ db.
      if any_row (λ (x : User). x.username == u.username) db.users
      then err user_exists
      else ok (u, record db { users = db.users ++ u ∷ [] })

unfoldable pub create_user_tx : Env → String → ℕ → String → String → UserRole → Bool → Tx User
unfolding new_username insert_user
create_user_tx env id now name display role reserved_ok = do
  n ← lift (new_username env name reserved_ok)
  let row : User = record {
    id = id;
    username = n;
    display_name = if env.trim_space display == "" then n else env.trim_space display;
    role = default_role role;
    status = UserStatus.active;
    created_at = now;
    quota_bytes = pos 0;
  }
  if valid_user_role row.role then insert_user env row else raise user_role

abbrev pub Hook : Type 0
Hook = User → Db → Result (Unit {0}) × Db

abbrev after_hook : User → Result (Unit {0}) → Result User
after_hook u (ok x) = ok u
after_hook u (err e) = err e

abbrev pub run_hook : Hook → Result User × Db → Result User × Db
run_hook hook (err e, db) = (err e, db)
run_hook hook (ok u, db) = (after_hook u (hook u db).0, (hook u db).1)

unfoldable pub create_user :
    Env → Hook → String → ℕ → String → String → UserRole → Bool → Db → Result User × Db
unfolding create_user_tx with_write
create_user env hook id now name display role reserved_ok db =
    run_hook hook (with_write (create_user_tx env id now name display role reserved_ok) db)

-- UPDATE users … WHERE id, and ErrNotFound where no row is affected.
unfoldable pub update_user : String → (User → User) → Tx (Unit {0})
update_user id f db =
    if any_row (λ (u : User). u.id == id) db.users
    then ok (tt, record db { users = update (λ (u : User). u.id == id) f db.users })
    else err not_found

unfoldable pub set_user_quota : String → ℤ → Db → Result (Unit {0}) × Db
unfolding update_user with_write
set_user_quota id bytes db =
    if ltb_ℤ bytes (pos 0)
    then (err quota, db)
    else with_write (update_user id (λ (u : User). record u { quota_bytes = bytes })) db

-- It fails when id is the only active admin.
unfoldable pub ensure_other_admin : String → Tx (Unit {0})
ensure_other_admin id db =
    if any_row (λ (u : User). active_admin u && not (u.id == id)) db.users
    then ok (tt, db)
    else if any_row (λ (u : User). u.id == id && active_admin u) db.users
    then err last_admin
    else ok (tt, db)

-- COALESCE(revoked_at, now)
abbrev pub revoked_by : ℕ → Option ℕ → Option ℕ
revoked_by now none = some now
revoked_by now (some t) = some t

unfoldable pub revoke_all : String → ℕ → Db → Db
revoke_all id now db = record db {
  devices =
      update (λ (d : Device). d.user_id == id)
        (λ (d : Device). record d { revoked_at = revoked_by now d.revoked_at }) db.devices;
  app_passwords =
      update (λ (p : AppPassword). sql_eq p.user_id id)
        (λ (p : AppPassword). record p { revoked_at = revoked_by now p.revoked_at })
        db.app_passwords;
}

unfoldable pub set_user_status_tx : String → UserStatus → ℕ → Tx (Unit {0})
unfolding ensure_other_admin update_user revoke_all
set_user_status_tx id status now = do
  if is_disabled status then ensure_other_admin id else pure tt
  update_user id (λ (u : User). record u { status = status })
  if is_disabled status then modify (revoke_all id now) else pure tt

unfoldable pub set_user_status : String → UserStatus → ℕ → Db → Result (Unit {0}) × Db
unfolding set_user_status_tx with_write
set_user_status id status now db =
    if not (valid_status status)
    then (err user_role, db)
    else with_write (set_user_status_tx id status now) db

unfoldable pub set_user_role_tx : String → UserRole → Tx (Unit {0})
unfolding ensure_other_admin update_user
set_user_role_tx id role = do
  if is_user_admin role then pure tt else ensure_other_admin id
  update_user id (λ (u : User). record u { role = role })

unfoldable pub set_user_role : String → UserRole → Db → Result (Unit {0}) × Db
unfolding set_user_role_tx with_write
set_user_role id role db =
    if not (valid_user_role role)
    then (err user_role, db)
    else with_write (set_user_role_tx id role) db

unfoldable pub set_display_name : Env → String → String → Db → Result (Unit {0}) × Db
unfolding sanitize_name update_user with_write
set_display_name env id display db = elim (sanitize_name env display) [
  | err e ↦ (err e, db)
  | ok n ↦ with_write (update_user id (λ (u : User). record u { display_name = n })) db
]

abbrev pub is_user_exists : Err → Bool
is_user_exists user_exists = true
is_user_exists e = false

-- Lost a race with another creator: that user, if it is an active admin.
abbrev pub owner_after_race : Env → Result User × Db → Result User × Db
owner_after_race env (ok u, db) = (ok u, db)
owner_after_race env (err e, db) =
    let found = find_username env db "owner" in
    if is_user_exists e && is_some_admin found
    then (elim found [ none ↦ err e | some u ↦ ok u ], db)
    else (err e, db)

abbrev pub first_row : List User → Option User
first_row [] = none
first_row (u ∷ us) = some u

-- The user "owner", or the oldest active admin, or a new one.
unfoldable pub ensure_owner : Env → Hook → String → ℕ → Db → Result User × Db
unfolding find_username create_user
ensure_owner env hook id now db =
    let named = find_username env db "owner" in
    let oldest = first_row (order_by (λ (u : User). u.created_at) (select active_admin db.users)) in
    let made =
      owner_after_race env (create_user env hook id now "owner" "Owner" UserRole.admin true db) in
    if is_some_admin named
    then (elim named [ none ↦ err not_found | some u ↦ ok u ], db)
    else elim oldest [ some u ↦ (ok u, db) | none ↦ made ]

-- "" is the default owner; any other user has to be active.
unfoldable pub resolve_user : Env → Hook → String → ℕ → String → Db → Result User × Db
unfolding ensure_owner find_user
resolve_user env hook id now user_id db =
    let owner = ensure_owner env hook id now db in
    if user_id == "" then owner else elim (find_user db user_id) [
      | none ↦ (err not_found, db)
      | some u ↦ if is_active u.status then (ok u, db) else (err user_disabled, db)
    ]
