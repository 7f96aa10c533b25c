-- ===== src/Sync/Push/Budget.antt =====
-- What a create leaves of the owner's quota (internal/syncengine/engine.go, quota.go).
use nubilo.Prelude.{
  ℕ, ◌≡◌, ◌≢◌, ◌⊎◌, refl, sym, ap, ◌∙◌, subst, inl, inr, String, true, Option, some, none, ◌==◌,
  arith, eq_refl, find_row,
}
use nubilo.Prelude.Int.{pos, ◌≤ℤ◌, ltb_ℤ, InInt64}
use nubilo.Identity.Device.{Device}
use nubilo.Store.{Db, User, Object, Collection, PushResult, or_empty, sql_eq, is_null}
use nubilo.Store.Env.{Env}
use nubilo.Store.Tx.{ok}
use nubilo.Sync.Access.{find_user, find_collection}
use nubilo.Sync.Types.{ChangeInput}
use nubilo.Sync.Quota.{counts_for, owner_usage, quota_allows}
use nubilo.Sync.Quota.Laws.{added_within, owner_usage-same}
use nubilo.Sync.Push.{apply_one, find_object, new_object}
use nubilo.Sync.Push.Writes.{write_create_lem}
use nubilo.Sync.Push.Outcome.{
  Outcome, refusing, conflicting, already_gone, creating, updating, deleting,
}
use nubilo.Sync.Push.Outcome.Reading.{apply_one_out}
use nubilo.Sync.Push.Safety.{validate_same, target_facts}

named_owner :
    (t : Option String) (owner : String) → or_empty t ≡ owner → owner ≢ "" → sql_eq t owner ≡ true
named_owner none owner e ne = absurd (ne (sym e))
named_owner (some s) owner e ne = ground (arith, e, eq_refl owner)

new_counts :
    (db : Db) (c : Collection) (o : Object) (owner : String)
    → find_collection db o.collection_id ≡ some c
    → is_null c.deleted_at ≡ true
    → or_empty c.owner_user_id ≡ owner
    → owner ≢ ""
    → is_null o.deleted_at ≡ true
    → counts_for db owner o ≡ true
unfolding counts_for
new_counts db c o owner found live owns named fresh =
    ground (arith, found, live, fresh, named_owner c.owner_user_id owner owns named)

module _ (env : Env) (dev : Device) (idem : String) (now : ℕ) (item : ChangeInput) (db : Db)
    (res : PushResult) (db' : Db) (c : Collection) (u : User) where
  within_out :
      Outcome env dev idem now item db res db'
      → db'.last_seq ≢ db.last_seq
      → find_object db item.object_id ≡ none
      → find_collection db item.collection_id ≡ some c
      → find_user db (or_empty c.owner_user_id) ≡ some u
      → or_empty c.owner_user_id ≢ ""
      → ltb_ℤ (pos 0) u.quota_bytes ≡ true
      → InInt64 u.quota_bytes
      → pos 0 ≤ℤ owner_usage db (or_empty c.owner_user_id)
      → (owner_usage db' (or_empty c.owner_user_id) ≤ℤ u.quota_bytes)
        ⊎ (owner_usage db' (or_empty c.owner_user_id) ≤ℤ owner_usage db (or_empty c.owner_user_id))
  unfolding find_collection find_user new_object
  within_out (refusing msg r refs) ne f g h named q fits up =
      absurd (ne (ap (λ (d : Db). d.last_seq) refs.same))
  within_out (conflicting obj o r e) ne f g h named q fits up =
      absurd (ne (ap (λ (d : Db). d.last_seq) e))
  within_out (already_gone obj o op gone r e) ne f g h named q fits up =
      absurd (ne (ap (λ (d : Db). d.last_seq) e))
  within_out (creating k sized cost mid t o a refs same allowed w) ne f g h named q fits up =
      let owner = or_empty c.owner_user_id in
      let (r, e) = write_create_lem env dev idem now sized cost mid db' res w in
      let (acc, found, live, access, enough, mirror) = target_facts env db dev item k t in
      let is : k ≡ c = ground (arith, found, g) in
      let tables : (mid.users ≡ db.users)
          × (mid.collections ≡ db.collections)
          × (mid.objects ≡ db.objects) =
        (ground (arith, refs.same), ground (arith, refs.same), ground (arith, refs.same)) in
      let row = new_object env dev idem now sized cost in
      let usage = owner_usage-same mid db owner tables.1 tables.2 in
      let there : find_collection mid item.collection_id ≡ some c =
        ap (find_row (λ (x : Collection). x.id == item.collection_id)) tables.1 ∙ g in
      let user : find_user mid owner ≡ some u =
        ap (find_row (λ (x : User). x.id == owner)) tables.0 ∙ h in
      let target = subst (λ i. find_collection mid i ≡ some c) (sym same.collection_id) there in
      let counts =
        new_counts mid c row owner target
          (subst (λ (x : Collection). is_null x.deleted_at ≡ true) is live) refl named refl in
      let allows =
        subst (λ (x : Collection). quota_allows mid (or_empty x.owner_user_id) cost ≡ true) is
          allowed in
      let out =
        added_within mid db' owner row u (ap (λ (d : Db). d.objects) e)
          (ap (λ (d : Db). d.collections) e) counts allows user named q fits
          (subst (λ n. pos 0 ≤ℤ n) (sym usage) up) in
      subst (λ n. (owner_usage db' owner ≤ℤ u.quota_bytes) ⊎ (owner_usage db' owner ≤ℤ n)) usage out
  within_out (updating k obj sized cost mid t m o a l st refs same allowed w) ne f g h named q fits
        up =
      cc
  within_out (deleting k obj t m o a l st w) ne f g h named q fits up = cc

module _ (env : Env) (dev : Device) (idem : String) (now : ℕ) (item : ChangeInput) (db : Db)
    (res : PushResult) (db' : Db) (c : Collection) (u : User) where
  -- A create stays within the owner's quota: if the journal moved on for an object that was not there,
  -- then the usage of the collection's owner, who has a positive quota, is within the quota or not more
  -- than it was. (The usage before is not negative.)
  pub create_within_quota :
      apply_one env dev idem now item db ≡ ok (res, db')
      → db'.last_seq ≢ db.last_seq
      → find_object db item.object_id ≡ none
      → find_collection db item.collection_id ≡ some c
      → find_user db (or_empty c.owner_user_id) ≡ some u
      → or_empty c.owner_user_id ≢ ""
      → ltb_ℤ (pos 0) u.quota_bytes ≡ true
      → InInt64 u.quota_bytes
      → pos 0 ≤ℤ owner_usage db (or_empty c.owner_user_id)
      → (owner_usage db' (or_empty c.owner_user_id) ≤ℤ u.quota_bytes)
        ⊎ (owner_usage db' (or_empty c.owner_user_id) ≤ℤ owner_usage db (or_empty c.owner_user_id))
  create_within_quota h ne f g us named q fits up =
      elim (apply_one_out env dev idem now item db res db' h) [
        | inl (msg, r, e) ↦ absurd (ne (ap (λ (d : Db). d.last_seq) e))
        | inr (valid, v, out) ↦
            let same = validate_same env item valid v in
            within_out env dev idem now valid db res db' c u out ne
              (subst (λ k. find_object db k ≡ none) (sym same.0) f)
              (subst (λ k. find_collection db k ≡ some c) (sym same.1) g) us named q fits up
      ]
