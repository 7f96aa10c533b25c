-- ===== src/Identity/Users/Apart.antt =====
-- Finding or creating a user (internal/identity/users.go) leaves the other tables as they are.
use nubilo.Prelude.{
  ℕ, ◌≡◌, refl, sym, ap, ◌∙◌, subst, inl, inr, String, Bool, true, false, List, [], ◌∷◌, ◌++◌,
  arith, if◌then◌else◌,
}
use nubilo.Identity.Device.{UserRole}
use nubilo.Store.{Db, User}
use nubilo.Store.Env.{Env}
use nubilo.Store.Tx.{
  Result, ok, err, lift, lift-state, raise, bind_parts, with_write-parts, user_role,
}
use nubilo.Identity.Users.{
  insert_user, new_username, valid_user_role, default_role, create_user_tx, Hook, run_hook,
  create_user, ensure_owner, resolve_user, owner_after_race,
}

module _ {B : Type 0} (view : Db → B)
    (apart : (db : Db) (us : List User) → view (record db { users = us }) ≡ view db) where
  insert_user-view :
      (env : Env) (u : User) (db : Db) (r : User × Db)
      → insert_user env u db ≡ ok r
      → view r.1 ≡ view db
  unfolding insert_user
  insert_user-view env u db r h =
      let same : r.1 ≡ record db { users = db.users ++ u ∷ [] } = ground (arith, h) in
      ap view same ∙ apart db (db.users ++ u ∷ [])

  insert_if-view :
      (b : Bool) (env : Env) (u : User) (db : Db) (r : User × Db)
      → (if b then insert_user env u else raise user_role) db ≡ ok r
      → view r.1 ≡ view db
  insert_if-view true env u db r h = insert_user-view env u db r h
  insert_if-view false env u db r h = ground arith

  create_user_tx-view :
      (env : Env) (id : String) (now : ℕ) (name display : String) (role : UserRole) (b : Bool)
      (db : Db) (r : User × Db)
      → create_user_tx env id now name display role b db ≡ ok r
      → view r.1 ≡ view db
  unfolding create_user_tx
  create_user_tx-view env id now name display role b db r h =
      let (n, mid, e, k) = bind_parts (lift (new_username env name b)) _ db {r = r} h in
      let same = lift-state (new_username env name b) db mid e in
      subst (λ x. view r.1 ≡ view x) same
        (insert_if-view (valid_user_role (default_role role)) env _ mid r k)

  module _ (hook : Hook) (keep : (u : User) (db : Db) → view (hook u db).1 ≡ view db) where
    run_hook-view : (r : Result User × Db) → view (run_hook hook r).1 ≡ view r.1
    run_hook-view (ok u, db) = keep u db
    run_hook-view (err e, db) = refl

    create_user-view :
        (env : Env) (id : String) (now : ℕ) (name display : String) (role : UserRole) (b : Bool)
        (db : Db)
        → view (create_user env hook id now name display role b db).1 ≡ view db
    unfolding create_user
    create_user-view env id now name display role b db =
        elim (with_write-parts (create_user_tx env id now name display role b) db) [
          | inl (r, e, w) ↦
              run_hook-view _
              ∙ subst (λ x. view x.1 ≡ view db) (sym w)
                  (create_user_tx-view env id now name display role b db r e)
          | inr (e, w) ↦ run_hook-view _ ∙ subst (λ x. view x.1 ≡ view db) (sym w) refl
        ]

    race-view : (env : Env) (r : Result User × Db) → view (owner_after_race env r).1 ≡ view r.1
    race-view env (ok u, db) = refl
    race-view env (err e, db) = ground arith

    ensure_owner-view :
        (env : Env) (id : String) (now : ℕ) (db : Db)
        → view (ensure_owner env hook id now db).1 ≡ view db
    unfolding ensure_owner
    ensure_owner-view env id now db =
        let made = create_user env hook id now "owner" "Owner" UserRole.admin true db in
        let same =
          race-view env made ∙ create_user-view env id now "owner" "Owner" UserRole.admin true db in
        ground (arith, same)

    pub resolve_user-view :
        (env : Env) (id : String) (now : ℕ) (user_id : String) (db : Db)
        → view (resolve_user env hook id now user_id db).1 ≡ view db
    unfolding resolve_user
    resolve_user-view env id now user_id db = ground (arith, ensure_owner-view env id now db)
