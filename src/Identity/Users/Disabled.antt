-- ===== src/Identity/Users/Disabled.antt =====
-- What SetUserStatus of internal/identity/users.go does to the user's devices.
use nubilo.Prelude.{
  ℕ, ◌≡◌, sym, subst, inl, inr, String, Bool, true, ◌==◌, arith, not, ◌||◌, Bool-cases, Every,
  Every-update, update-Every,
}
use nubilo.Identity.Device.{Device, UserStatus, is_some}
use nubilo.Store.{Db, User}
use nubilo.Store.Tx.{Result, ok, err, with_write-parts, bind_parts}
use nubilo.Identity.Users.{
  revoked_by, revoke_all, ensure_other_admin, update_user, set_user_status_tx, set_user_status,
  valid_status,
}

-- A device of the user has a time of revocation.
abbrev pub locked : String → Device → Bool
locked id d = not (d.user_id == id) || is_some d.revoked_at

abbrev pub LockedOut : String → Db → Type 0
LockedOut id db = Every (λ (d : Device). locked id d ≡ true) db.devices

revoke_all-LockedOut : (id : String) (now : ℕ) (db : Db) → LockedOut id (revoke_all id now db)
unfolding revoke_all
revoke_all-LockedOut id now db =
    update-Every (λ (d : Device). locked id d ≡ true) (λ (d : Device). d.user_id == id)
      (λ (d : Device). record d { revoked_at = revoked_by now d.revoked_at }) db.devices
      (λ x h. ground arith) (λ x h. ground arith)

revoke_all-keeps_locked :
    (id other : String) (now : ℕ) (db : Db)
    → LockedOut id db
    → LockedOut id (revoke_all other now db)
unfolding revoke_all
revoke_all-keeps_locked id other now db w =
    Every-update (λ (d : Device). locked id d ≡ true) (λ (d : Device). d.user_id == other)
      (λ (d : Device). record d { revoked_at = revoked_by now d.revoked_at }) db.devices
      (λ x k h. ground arith) w

update_user-devices :
    (id : String) (f : User → User) (db mid : Db) {u : Unit {0}}
    → update_user id f db ≡ ok (u, mid)
    → mid.devices ≡ db.devices
unfolding update_user
update_user-devices id f db mid h = ground (arith, h)

guard-state :
    (id : String) (db mid : Db) {u : Unit {0}} → ensure_other_admin id db ≡ ok (u, mid) → mid ≡ db
unfolding ensure_other_admin
guard-state id db mid h = ground (arith, h)

disabled-devices :
    (id : String) (now : ℕ) (db : Db) (r : Unit {0} × Db)
    → set_user_status_tx id UserStatus.disabled now db ≡ ok r
    → r.1.devices ≡ (revoke_all id now db).devices
unfolding set_user_status_tx revoke_all
disabled-devices id now db r h =
    let f : User → User = λ u. record u { status = UserStatus.disabled } in
    let (u, mid, e, k) = bind_parts (ensure_other_admin id) _ db {r = r} h in
    let (u2, mid2, e2, k2) = bind_parts (update_user id f) _ mid {r = r} k in
    ground
      (arith, k2, guard-state id db mid {u = u} e, update_user-devices id f mid mid2 {u = u2} e2)

active-devices :
    (id : String) (now : ℕ) (db : Db) (r : Unit {0} × Db)
    → set_user_status_tx id UserStatus.active now db ≡ ok r
    → r.1.devices ≡ db.devices
unfolding set_user_status_tx
active-devices id now db r h =
    let f : User → User = λ u. record u { status = UserStatus.active } in
    let (u, mid, e, k) = bind_parts (update_user id f) (λ _ x. ok (tt, x)) db {r = r} h in
    ground (arith, k, update_user-devices id f db mid {u = u} e)

status_tx-keeps_locked :
    (id other : String) (status : UserStatus) (now : ℕ) (db : Db) (r : Unit {0} × Db)
    → valid_status status ≡ true
    → set_user_status_tx other status now db ≡ ok r
    → LockedOut id db
    → LockedOut id r.1
status_tx-keeps_locked id other UserStatus.active now db r v h w =
    subst (Every (λ (d : Device). locked id d ≡ true)) (sym (active-devices other now db r h)) w
status_tx-keeps_locked id other UserStatus.disabled now db r v h w =
    subst (Every (λ (d : Device). locked id d ≡ true)) (sym (disabled-devices other now db r h))
      (revoke_all-keeps_locked id other now db w)
status_tx-keeps_locked id other (UserStatus.other s) now db r v h w = ground arith

pub set_user_status-keeps_locked :
    (id other : String) (status : UserStatus) (now : ℕ) (db : Db)
    → LockedOut id db
    → LockedOut id (set_user_status other status now db).1
unfolding set_user_status
set_user_status-keeps_locked id other status now db w = elim (Bool-cases (valid_status status)) [
  | inr v ↦ rw v w
  | inl v ↦ elim (with_write-parts (set_user_status_tx other status now) db) [
    | inl (r, e, out) ↦ rw v (
        subst (λ x. LockedOut id x.1) (sym out)
          (status_tx-keeps_locked id other status now db r v e w))
    | inr (e, out) ↦ rw v (subst (λ x. LockedOut id x.1) (sym out) w)
  ]
]

pub set_user_status-LockedOut :
    (id : String) (now : ℕ) (db : Db)
    → (set_user_status id UserStatus.disabled now db).0 ≡ ok tt
    → LockedOut id (set_user_status id UserStatus.disabled now db).1
unfolding set_user_status
set_user_status-LockedOut id now db h =
    elim (with_write-parts (set_user_status_tx id UserStatus.disabled now) db) [
      | inl (r, e, out) ↦
          let all = revoke_all-LockedOut id now db in
          let now_locked =
            subst (Every (λ (d : Device). locked id d ≡ true))
              (sym (disabled-devices id now db r e)) all in
          subst (λ x. LockedOut id x.1) (sym out) now_locked
      | inr (e, out) ↦ absurd (
          let bad : ◌≡◌ {A = Result (Unit {0})} (err e) (ok tt) = subst (λ x. x.0 ≡ ok tt) out h in
          ground arith)
    ]
