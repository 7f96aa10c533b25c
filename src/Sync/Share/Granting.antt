-- ===== src/Sync/Share/Granting.antt =====
-- What SetShare gives (internal/syncengine/access.go).
use nubilo.Prelude.{
  ℕ, ◌≡◌, ◌≢◌, ◌≤◌, refl, sym, ap, ◌∙◌, subst, String, true, ◌&&◌, Option, none, some, ◌==◌, arith,
  eq_iff, eq_refl, find_row, find_row_passes, update, merged, find_row-upsert, if◌then◌else◌,
}
use nubilo.Authz.{Access, access_read, access_write}
use nubilo.Store.{Db, Collection, Share, or_empty}
use nubilo.Store.Tx.{ok, with_write}
use nubilo.Sync.Access.{
  find_collection, user_active, share_match, share_access, share_level, best_share, root_of,
  row_access, access_q,
}
use nubilo.Sync.Access.Agreement.{best_share-le}
use nubilo.Sync.Share.{share_key, touched, upsert_share, touch_collection, set_share}
use nubilo.Sync.Share.Laws.{best_share-find_row, found_touched, user_active-users}

-- The access that a share's text stands for.
abbrev pub granted : String → Access
granted access = if access == "rw" then access_write else access_read

key_matches :
    (d : Db) (collection_id user_id : String) (s : Share)
    → share_key collection_id "user" user_id s ≡ true
    → (s.collection_id == collection_id && share_match d user_id s) ≡ true
unfolding share_key share_match
key_matches d collection_id user_id s h = ground arith

level_of : (s : Share) → share_access s ≡ granted s.access
unfolding share_access
level_of s = refl

module _ (collection_id user_id access created_by : String) (now : ℕ) (db : Db) where
  abbrev row : Share
  row = record {
    collection_id = collection_id;
    principal_type = "user";
    principal_id = user_id;
    access = access;
    created_by = created_by;
    created_at = now;
  }

  abbrev set : Db
  set = touch_collection collection_id now (upsert_share row db)

  -- The row that the write leaves under the key.
  abbrev stored : Share
  stored =
      merged (λ (x : Share). record x { access = access }) row
        (find_row (share_key collection_id "user" user_id) db.shares)

  stored_found : find_row (share_key collection_id "user" user_id) set.shares ≡ some stored
  unfolding upsert_share touch_collection share_key
  stored_found =
      find_row-upsert (share_key collection_id "user" user_id)
        (λ (x : Share). record x { access = access }) row db.shares (λ x. refl)
        (ground (arith, eq_refl collection_id, eq_refl user_id))

  stored_access :
      (t : Option Share)
      → (merged (λ (x : Share). record x { access = access }) row t).access ≡ access
  stored_access none = refl
  stored_access (some s) = refl

  best_granted : granted access ≤ best_share set collection_id user_id set.shares
  best_granted =
      let key = share_key collection_id "user" user_id in
      let fits =
        key_matches set collection_id user_id stored
          (find_row_passes key set.shares stored stored_found) in
      let level = level_of stored ∙ ap granted (stored_access (find_row key db.shares)) in
      subst (λ n. n ≤ best_share set collection_id user_id set.shares) level
        (best_share-find_row set collection_id user_id key set.shares stored stored_found fits)

  set_tables :
      (set.users ≡ db.users)
      × (set.collections
          ≡ update (λ (x : Collection). x.id == collection_id) (touched now) db.collections)
  unfolding upsert_share touch_collection
  set_tables = (refl, refl)

  row_granted :
      (c c' : Collection)
      → root_of c ≡ collection_id
      → c'.owner_user_id ≡ c.owner_user_id
      → root_of c' ≡ root_of c
      → user_active db user_id ≡ true
      → user_active db (or_empty c.owner_user_id) ≡ true
      → granted access ≤ row_access set user_id c'
  unfolding row_access share_level
  row_granted c c' top owner root active holder =
      let best = best_share set (root_of c') user_id set.shares in
      let enough =
        subst (λ r. granted access ≤ best_share set r user_id set.shares) (sym (root ∙ top))
          best_granted in
      let most = best_share-le set (root_of c') user_id set.shares in
      let caller = user_active-users set db user_id set_tables.0 in
      let owned = user_active-users set db (or_empty c'.owner_user_id) set_tables.0 in
      ground (arith, enough, most, caller, owned, owner)

  set_share_writes :
      (set_share collection_id "user" user_id access created_by now db).0 ≡ ok tt
      → (set_share collection_id "user" user_id access created_by now db).1 ≡ set
  unfolding set_share with_write
  set_share_writes h = ground (arith, h)

  -- A share that is set gives its access at once: an active user to whom the root collection of an
  -- active owner is shared has read access to it, and write access if the share is "rw", or more.
  pub set_share_grants :
      (c : Collection)
      → (set_share collection_id "user" user_id access created_by now db).0 ≡ ok tt
      → find_collection db collection_id ≡ some c
      → root_of c ≡ collection_id
      → user_id ≢ ""
      → user_active db user_id ≡ true
      → user_active db (or_empty c.owner_user_id) ≡ true
      → (acc : Access) × (access_q
            (set_share collection_id "user" user_id access created_by now db).1
            user_id
            collection_id
          ≡ ok acc)
        × (granted access ≤ acc)
  unfolding access_q find_collection
  set_share_grants c h f top named active holder =
      let (c', found, owner, root) =
        found_touched db collection_id collection_id now db.collections c f in
      let there : find_collection set collection_id ≡ some c' =
        ap (find_row (λ (x : Collection). x.id == collection_id)) set_tables.1 ∙ found in
      (
        row_access set user_id c',
        ap (λ d. access_q d user_id collection_id) (set_share_writes h)
            ∙ ground (arith, there, eq_iff user_id ""),
        row_granted c c' top owner root active holder,
      )
