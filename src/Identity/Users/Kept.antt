-- ===== src/Identity/Users/Kept.antt =====
-- The operations on users keep an active admin (internal/identity/users.go).
use nubilo.Prelude.{
  ℕ, ◌≡◌, sym, subst, inl, inr, String, Bool, true, false, [], ◌∷◌, arith, Bool-cases,
  if◌then◌else◌,
}
use nubilo.Prelude.Int.{ℤ}
use nubilo.Identity.Device.{UserRole, UserStatus}
use nubilo.Identity.Names.{sanitize_name}
use nubilo.Store.{Db, User}
use nubilo.Store.Env.{Env}
use nubilo.Store.Tx.{
  Result, ok, err, with_write, bind_parts, ◌>>◌, lift, lift-state, raise, user_role,
}
use nubilo.Identity.Users.{
  active_admin, valid_status, valid_user_role, default_role, new_username, insert_user,
  create_user_tx, Hook, run_hook, create_user, update_user, set_user_quota, ensure_other_admin,
  revoke_all, set_user_status_tx, set_user_status, set_user_role_tx, set_user_role,
  set_display_name,
}
use nubilo.Identity.Users.Admins.{
  HasAdmin, any_row-append, other_admin, with_write-HasAdmin, update_user-HasAdmin,
  update_user-HasAdmin_other,
}

-- The guard lets an update through only where another admin is left.
guarded-HasAdmin :
    (id : String) (f : User → User) (db : Db) (r : Unit {0} × Db)
    → (ensure_other_admin id >> update_user id f) db ≡ ok r
    → HasAdmin db
    → HasAdmin r.1
guarded-HasAdmin id f db r h w =
    let (u, mid, e, k) = bind_parts (ensure_other_admin id) (λ _. update_user id f) db {r = r} h in
    let (same, left) = other_admin id db mid u e w in
    update_user-HasAdmin_other id f db r (subst (λ x. update_user id f x ≡ ok r) same k) left

-- Revoking touches no user.
set_user_status_tx-HasAdmin :
    (id : String) (status : UserStatus) (now : ℕ) (db : Db) (r : Unit {0} × Db)
    → valid_status status ≡ true
    → set_user_status_tx id status now db ≡ ok r
    → HasAdmin db
    → HasAdmin r.1
unfolding set_user_status_tx revoke_all
set_user_status_tx-HasAdmin id UserStatus.active now db r v h w =
    let f : User → User = λ u. record u { status = UserStatus.active } in
    let (u, mid, e, k) = bind_parts (update_user id f) (λ _ x. Result.ok (tt, x)) db {r = r} h in
    ground (arith, k, update_user-HasAdmin id f db (u, mid) (λ x hx. ground arith) e w)
set_user_status_tx-HasAdmin id UserStatus.disabled now db r v h w =
    let f : User → User = λ u. record u { status = UserStatus.disabled } in
    let (u, mid, e, k) = bind_parts (ensure_other_admin id) _ db {r = r} h in
    let (u2, mid2, e2, k2) = bind_parts (update_user id f) _ mid {r = r} k in
    let (same, left) = other_admin id db mid u e w in
    let kept =
      update_user-HasAdmin_other id f db (u2, mid2)
        (subst (λ x. update_user id f x ≡ ok (u2, mid2)) same e2) left in
    ground (arith, k2, kept)
set_user_status_tx-HasAdmin id (UserStatus.other s) now db r v h w = ground arith

-- The case split of SetRole on the new role.
set_user_role_tx-HasAdmin :
    (id : String) (role : UserRole) (db : Db) (r : Unit {0} × Db)
    → set_user_role_tx id role db ≡ ok r
    → HasAdmin db
    → HasAdmin r.1
unfolding set_user_role_tx
set_user_role_tx-HasAdmin id UserRole.admin db r h w =
    update_user-HasAdmin id (λ (u : User). record u { role = UserRole.admin }) db r
      (λ x hx. ground arith) h w
set_user_role_tx-HasAdmin id UserRole.member db r h w = guarded-HasAdmin id _ db r h w
set_user_role_tx-HasAdmin id (UserRole.other s) db r h w = guarded-HasAdmin id _ db r h w

insert_user-HasAdmin :
    (env : Env) (u : User) (db : Db) (r : User × Db)
    → insert_user env u db ≡ ok r
    → HasAdmin db
    → HasAdmin r.1
unfolding insert_user
insert_user-HasAdmin env u db r h w = ground (arith, any_row-append active_admin db.users (u ∷ []))

insert_if-HasAdmin :
    (b : Bool) (env : Env) (u : User) (db : Db) (r : User × Db)
    → (if b then insert_user env u else raise user_role) db ≡ ok r
    → HasAdmin db
    → HasAdmin r.1
insert_if-HasAdmin true env u db r h w = insert_user-HasAdmin env u db r h w
insert_if-HasAdmin false env u db r h w = ground arith

create_user_tx-HasAdmin :
    (env : Env) (id : String) (now : ℕ) (name display : String) (role : UserRole) (b : Bool)
    (db : Db) (r : User × Db)
    → create_user_tx env id now name display role b db ≡ ok r
    → HasAdmin db
    → HasAdmin r.1
unfolding create_user_tx
create_user_tx-HasAdmin env id now name display role b db r h w =
    let (n, mid, e, k) = bind_parts (lift (new_username env name b)) _ db {r = r} h in
    let same = lift-state (new_username env name b) db mid e in
    insert_if-HasAdmin (valid_user_role (default_role role)) env _ mid r k
      (subst HasAdmin (sym same) w)

-- What the server sets as OnUserCreated keeps the admins.
abbrev pub KeepsAdmin : Hook → Type 0
KeepsAdmin hook = (u : User) (db : Db) → HasAdmin db → HasAdmin (hook u db).1

run_hook-HasAdmin :
    (hook : Hook)
    → KeepsAdmin hook
    → (r : Result User × Db) → HasAdmin r.1
    → HasAdmin (run_hook hook r).1
run_hook-HasAdmin hook keep (ok u, db) h = keep u db h
run_hook-HasAdmin hook keep (err e, db) h = h

pub create_user-HasAdmin :
    (env : Env) (hook : Hook) (id : String) (now : ℕ) (name display : String) (role : UserRole)
    (b : Bool) (db : Db)
    → KeepsAdmin hook
    → HasAdmin db
    → HasAdmin (create_user env hook id now name display role b db).1
unfolding create_user
create_user-HasAdmin env hook id now name display role b db keep h =
    let made =
      with_write-HasAdmin (create_user_tx env id now name display role b) db
        (λ r e. create_user_tx-HasAdmin env id now name display role b db r e h) h in
    run_hook-HasAdmin hook keep _ made

pub set_user_status-HasAdmin :
    (id : String) (status : UserStatus) (now : ℕ) (db : Db)
    → HasAdmin db
    → HasAdmin (set_user_status id status now db).1
unfolding set_user_status
set_user_status-HasAdmin id status now db h = elim (Bool-cases (valid_status status)) [
  | inl v ↦ ground (
    arith,
    v,
    with_write-HasAdmin (set_user_status_tx id status now) db
        (λ r e. set_user_status_tx-HasAdmin id status now db r v e h) h,
  )
  | inr v ↦ ground (arith, v, h)
]

pub set_user_role-HasAdmin :
    (id : String) (role : UserRole) (db : Db) → HasAdmin db → HasAdmin (set_user_role id role db).1
unfolding set_user_role
set_user_role-HasAdmin id role db h =
    let w =
      with_write-HasAdmin (set_user_role_tx id role) db
        (λ r e. set_user_role_tx-HasAdmin id role db r e h) h in
    ground (arith, h, w)

pub set_user_quota-HasAdmin :
    (id : String) (bytes : ℤ) (db : Db) → HasAdmin db → HasAdmin (set_user_quota id bytes db).1
unfolding set_user_quota
set_user_quota-HasAdmin id bytes db h =
    let f : User → User = λ u. record u { quota_bytes = bytes } in
    let w =
      with_write-HasAdmin (update_user id f) db
        (λ r e. update_user-HasAdmin id f db r (λ x hx. hx) e h) h in
    ground (arith, h, w)

pub set_display_name-HasAdmin :
    (env : Env) (id display : String) (db : Db)
    → HasAdmin db
    → HasAdmin (set_display_name env id display db).1
unfolding set_display_name
set_display_name-HasAdmin env id display db h = go (sanitize_name env display)
  where
    kept :
        (n : String)
        → HasAdmin (with_write (update_user id (λ (u : User). record u { display_name = n })) db).1
    kept n =
        let f : User → User = λ u. record u { display_name = n } in
        with_write-HasAdmin (update_user id f) db
          (λ r e. update_user-HasAdmin id f db r (λ x hx. hx) e h) h

    go :
        (t : Result String)
        → HasAdmin
            (elim t as (λ _. Result (Unit {0}) × Db) [
              | err e ↦ (err e, db)
              | ok n ↦ with_write (update_user id (λ (u : User). record u { display_name = n })) db
            ]).1
    go (ok n) = kept n
    go (err e) = h
