-- ===== src/Identity/Users/History.antt =====
-- What the users go through, one operation after another (internal/identity/users.go).
use nubilo.Prelude.{
  ℕ, ◌≡◌, refl, sym, ap, subst, inl, inr, String, Bool, true, false, none, List, [], ◌∷◌, ◌++◌,
  arith, Bool-cases, any_row, find_row, select, order_by,
}
use nubilo.Prelude.Int.{ℤ}
use nubilo.Identity.Device.{UserRole, UserStatus}
use nubilo.Store.{Db, User}
use nubilo.Store.Env.{Env}
use nubilo.Store.Tx.{Result, ok, err, lift, bind_parts, with_write-parts}
use nubilo.Identity.Users.{
  active_admin, Hook, create_user, set_user_quota, set_user_status, set_user_role, set_display_name,
  ensure_owner, resolve_user, owner_after_race, find_username, is_some_admin, create_user_tx,
  insert_user, new_username, run_hook, first_row,
}
use nubilo.Identity.Users.Admins.{HasAdmin}
use nubilo.Identity.Users.Kept.{
  KeepsAdmin, create_user-HasAdmin, set_user_status-HasAdmin, set_user_role-HasAdmin,
  set_user_quota-HasAdmin, set_display_name-HasAdmin,
}

-- One call on the users, and the state it leaves whether or not it succeeds.
pub data UserStep (env : Env) (hook : Hook) : Db → Db → Type 0 where
  created :
      {db : Db} (id : String) (now : ℕ) (name display : String) (role : UserRole)
      → UserStep env hook db (create_user env hook id now name display role false db).1
  status_set :
      {db : Db} (id : String) (status : UserStatus) (now : ℕ)
      → UserStep env hook db (set_user_status id status now db).1
  role_set :
      {db : Db} (id : String) (role : UserRole) → UserStep env hook db (set_user_role id role db).1
  quota_set :
      {db : Db} (id : String) (bytes : ℤ) → UserStep env hook db (set_user_quota id bytes db).1
  renamed :
      {db : Db} (id display : String) → UserStep env hook db (set_display_name env id display db).1
  resolved :
      {db : Db} (id : String) (now : ℕ) (user_id : String)
      → UserStep env hook db (resolve_user env hook id now user_id db).1

pub data UserSteps (env : Env) (hook : Hook) : Db → Db → Type 0 where
  done : {db : Db} → UserSteps env hook db db
  next :
      {db mid after : Db}
      → UserStep env hook db mid
      → UserSteps env hook mid after
      → UserSteps env hook db after

owner_after_race-state : (env : Env) (r : Result User × Db) → (owner_after_race env r).1 ≡ r.1
owner_after_race-state env (ok u, db) = refl
owner_after_race-state env (err e, db) = ground arith

ensure_owner-HasAdmin :
    (env : Env) (hook : Hook) (id : String) (now : ℕ) (db : Db)
    → KeepsAdmin hook
    → HasAdmin db
    → HasAdmin (ensure_owner env hook id now db).1
unfolding ensure_owner
ensure_owner-HasAdmin env hook id now db keep h =
    let made = create_user env hook id now "owner" "Owner" UserRole.admin true db in
    let kept = create_user-HasAdmin env hook id now "owner" "Owner" UserRole.admin true db keep h in
    let same = owner_after_race-state env made in
    let after = subst HasAdmin (sym same) kept in ground (arith, after, h)

resolve_user-HasAdmin :
    (env : Env) (hook : Hook) (id : String) (now : ℕ) (user_id : String) (db : Db)
    → KeepsAdmin hook
    → HasAdmin db
    → HasAdmin (resolve_user env hook id now user_id db).1
unfolding resolve_user
resolve_user-HasAdmin env hook id now user_id db keep h =
    ground (arith, h, ensure_owner-HasAdmin env hook id now db keep h)

step-HasAdmin :
    (env : Env) (hook : Hook) {db after : Db}
    → KeepsAdmin hook
    → UserStep env hook db after
    → HasAdmin db
    → HasAdmin after
step-HasAdmin env hook keep (created id now name display role) h =
    create_user-HasAdmin env hook id now name display role false _ keep h
step-HasAdmin env hook keep (status_set id status now) h =
    set_user_status-HasAdmin id status now _ h
step-HasAdmin env hook keep (role_set id role) h = set_user_role-HasAdmin id role _ h
step-HasAdmin env hook keep (quota_set id bytes) h = set_user_quota-HasAdmin id bytes _ h
step-HasAdmin env hook keep (renamed id display) h = set_display_name-HasAdmin env id display _ h
step-HasAdmin env hook keep (resolved id now user_id) h =
    resolve_user-HasAdmin env hook id now user_id _ keep h

steps-HasAdmin :
    (env : Env) (hook : Hook) {db after : Db}
    → KeepsAdmin hook
    → UserSteps env hook db after
    → HasAdmin db
    → HasAdmin after
steps-HasAdmin env hook keep done h = h
steps-HasAdmin env hook keep (next s rest) h =
    steps-HasAdmin env hook keep rest (step-HasAdmin env hook keep s h)

found_admin :
    (p : User → Bool) (xs : List User)
    → is_some_admin (find_row p xs) ≡ true
    → any_row active_admin xs ≡ true
unfolding find_row any_row
found_admin p [] h = ground arith
found_admin p (x ∷ xs) h = ground (arith, found_admin p xs)

found-HasAdmin :
    (env : Env) (db : Db) (name : String)
    → is_some_admin (find_username env db name) ≡ true
    → HasAdmin db
unfolding find_username
found-HasAdmin env db name h = found_admin _ db.users h

no_admin-select : (xs : List User) → any_row active_admin xs ≡ false → select active_admin xs ≡ []
unfolding any_row select
no_admin-select [] h = refl
no_admin-select (x ∷ xs) h = ground (arith, no_admin-select xs)

append-any_row :
    (p : User → Bool) (xs : List User) (y : User) → p y ≡ true → any_row p (xs ++ y ∷ []) ≡ true
unfolding any_row
append-any_row p [] y h = ground arith
append-any_row p (x ∷ xs) y h = ground (arith, append-any_row p xs y h)

insert_admin :
    (env : Env) (u : User) (db : Db) (r : User × Db)
    → insert_user env u db ≡ ok r
    → active_admin u ≡ true
    → HasAdmin r.1
unfolding insert_user
insert_admin env u db r h a = ground (arith, h, append-any_row active_admin db.users u a)

create_admin :
    (env : Env) (id : String) (now : ℕ) (name display : String) (b : Bool) (db : Db) (r : User × Db)
    → create_user_tx env id now name display UserRole.admin b db ≡ ok r
    → HasAdmin r.1
unfolding create_user_tx
create_admin env id now name display b db r h =
    let (n, mid, e, k) = bind_parts (lift (new_username env name b)) _ db {r = r} h in
    insert_admin env _ mid r k refl

create_owner :
    (env : Env) (hook : Hook) (id : String) (now : ℕ) (name display : String) (b : Bool) (db : Db)
    (u : User)
    → KeepsAdmin hook
    → (create_user env hook id now name display UserRole.admin b db).0 ≡ ok u
    → HasAdmin (create_user env hook id now name display UserRole.admin b db).1
unfolding create_user
create_owner env hook id now name display b db u keep h =
    elim (with_write-parts (create_user_tx env id now name display UserRole.admin b) db) [
      | inl (r, e, w) ↦
          let made = create_admin env id now name display b db r e in
          subst (λ x. HasAdmin (run_hook hook x).1) (sym w) (keep r.0 r.1 made)
      | inr (e, w) ↦
          let bad : Result.err e ≡ ok u = subst (λ x. (run_hook hook x).0 ≡ ok u) w h in
          ground arith
    ]

owner_after_race-HasAdmin :
    (env : Env) (r : Result User × Db) (u : User)
    → (owner_after_race env r).0 ≡ ok u
    → ((v : User) → r.0 ≡ ok v → HasAdmin r.1)
    → HasAdmin (owner_after_race env r).1
owner_after_race-HasAdmin env (ok v, db) u h k = k v refl
owner_after_race-HasAdmin env (err e, db) u h k = ground (arith, h, found-HasAdmin env db "owner")

-- Without an admin EnsureOwner creates the owner.
ensure_owner-create :
    (env : Env) (hook : Hook) (id : String) (now : ℕ) (db : Db)
    → any_row active_admin db.users ≡ false
    → ensure_owner env hook id now db
      ≡ owner_after_race env (create_user env hook id now "owner" "Owner" UserRole.admin true db)
unfolding ensure_owner order_by
ensure_owner-create env hook id now db e =
    let none_named = found-HasAdmin env db "owner" in
    let none_old : first_row (order_by (λ (u : User). u.created_at) (select active_admin db.users))
        ≡ none =
      ap (λ us. first_row (order_by (λ (u : User). u.created_at) us))
        (no_admin-select db.users e) in
    ground (arith, e, none_old, none_named)

ensure_owner_admin :
    (env : Env) (hook : Hook) (id : String) (now : ℕ) (db : Db) (u : User)
    → KeepsAdmin hook
    → (ensure_owner env hook id now db).0 ≡ ok u
    → HasAdmin (ensure_owner env hook id now db).1
ensure_owner_admin env hook id now db u keep h = elim (Bool-cases (any_row active_admin db.users)) [
  | inl e ↦ ensure_owner-HasAdmin env hook id now db keep e
  | inr e ↦
      let made = create_user env hook id now "owner" "Owner" UserRole.admin true db in
      let same = ensure_owner-create env hook id now db e in
      let kept =
        owner_after_race-HasAdmin env made u (subst (λ x. x.0 ≡ ok u) same h)
          (λ v hv. create_owner env hook id now "owner" "Owner" true db v keep hv) in
      subst (λ x. HasAdmin x.1) (sym same) kept
]

-- Once EnsureOwner has returned a user, the server has an active admin after any sequence of calls on
-- its users, failed ones included: Create, SetStatus, SetRole, SetQuota, SetDisplayName and
-- resolveUser, where OnUserCreated leaves an active admin where there was one.
pub admin_remains :
    (env : Env) (hook : Hook) (id : String) (now : ℕ) (db after : Db) (u : User)
    → KeepsAdmin hook
    → (ensure_owner env hook id now db).0 ≡ ok u
    → UserSteps env hook (ensure_owner env hook id now db).1 after
    → any_row active_admin after.users ≡ true
admin_remains env hook id now db after u keep h steps =
    steps-HasAdmin env hook keep steps (ensure_owner_admin env hook id now db u keep h)
