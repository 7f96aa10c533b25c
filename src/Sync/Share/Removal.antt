-- ===== src/Sync/Share/Removal.antt =====
-- What RemoveShare takes away (internal/syncengine/access.go).
use nubilo.Prelude.{
  ℕ, ◌≡◌, ◌≢◌, ◌≤◌, refl, sym, ap, ◌∙◌, subst, String, Bool, false, not, ◌&&◌, some, List, [], ◌∷◌,
  ◌==◌, arith, inl, inr, eq_iff, Bool-cases, any_row, select, Option-cases,
}
use nubilo.Authz.{Access, access_none}
use nubilo.Store.{Db, Member, Collection, Share, or_empty}
use nubilo.Store.Tx.{ok}
use nubilo.Sync.Access.{
  find_collection, in_group, share_match, best_share, root_of, row_access, access_q, share_level,
}
use nubilo.Sync.Share.{share_key, touch_collection, remove_share}
use nubilo.Sync.Share.Laws.{best_share-select, best_share-members, found_touched, row_access_mono}

abbrev kept : String → String → String → Share → Bool
kept collection_id principal_type principal_id s =
    not (share_key collection_id principal_type principal_id s)

module _ (collection_id principal_type principal_id : String) (now : ℕ) (db : Db) where
  abbrev left : Db
  left = (remove_share collection_id principal_type principal_id now db).1

  left_tables :
      (left.shares ≡ select (kept collection_id principal_type principal_id) db.shares)
      × (left.members ≡ db.members)
      × (left.users ≡ db.users)
  unfolding remove_share touch_collection
  left_tables = (ground arith, ground arith, ground arith)

  left_found :
      (k : String) (c : Collection)
      → find_collection db k ≡ some c
      → (c' : Collection) × (find_collection left k ≡ some c')
        × (c'.owner_user_id ≡ c.owner_user_id)
        × (root_of c' ≡ root_of c)
  unfolding remove_share touch_collection find_collection
  left_found k c f =
      elim (Bool-cases (any_row (share_key collection_id principal_type principal_id) db.shares)) [
        | inl hit ↦ rw hit (found_touched db collection_id k now db.collections c f)
        | inr miss ↦ rw miss (c, f, refl, refl)
      ]

  row_lowers :
      (u : String) (c c' : Collection)
      → c'.owner_user_id ≡ c.owner_user_id
      → root_of c' ≡ root_of c
      → row_access left u c' ≤ row_access db u c
  row_lowers u c c' owner root =
      let (shares, members, users) = left_tables in
      let less =
        best_share-select db (root_of c) u (kept collection_id principal_type principal_id)
          db.shares in
      let moved = best_share-members left db (root_of c') u left.shares members in
      let there : best_share left (root_of c') u left.shares
          ≡ best_share db (root_of c) u
              (select (kept collection_id principal_type principal_id) db.shares) =
        moved
        ∙ ap (λ r. best_share db r u left.shares) root
        ∙ ap (best_share db (root_of c) u) shares in
      row_access_mono left db u c' c users owner
        (subst (λ n. n ≤ best_share db (root_of c) u db.shares) (sym there) less)

  -- Removing a share raises nobody's access to any collection.
  pub remove_share_lowers :
      (u k : String) (acc : Access)
      → access_q db u k ≡ ok acc
      → (acc' : Access) × (access_q left u k ≡ ok acc') × (acc' ≤ acc)
  unfolding access_q
  remove_share_lowers u k acc h = elim (Bool-cases (u == "")) [
    | inl empty ↦ (0, ground (arith, empty), omega arith)
    | inr named ↦ elim (Option-cases (find_collection db k)) [
      | inl e ↦ absurd (ground (arith, e, named))
      | inr (c, e) ↦
          let (c', found, owner, root) = left_found k c e in
          let less = row_lowers u c c' owner root in
          (row_access left u c', ground (arith, found, named), ground (arith, e, named, less))
    ]
  ]

no_group :
    (user_id group_id : String) (ms : List Member)
    → any_row (λ (m : Member). m.user_id == user_id) ms ≡ false
    → any_row (λ (m : Member). m.group_id == group_id && m.user_id == user_id) ms ≡ false
unfolding any_row
no_group user_id group_id [] h = refl
no_group user_id group_id (m ∷ ms) h = ground (arith, no_group user_id group_id ms)

none_left :
    (db : Db) (root user_id : String) (xs : List Share)
    → any_row (λ (m : Member). m.user_id == user_id) db.members ≡ false
    → best_share db root user_id (select (kept root "user" user_id) xs) ≡ 0
unfolding best_share select share_match in_group share_key
none_left db root user_id [] h = refl
none_left db root user_id (x ∷ xs) h =
    ground (arith, no_group user_id x.principal_id db.members h, none_left db root user_id xs h)

-- With the share of a user goes the access: a user who is in no group and does not own the root
-- collection has none to it after their share is removed.
pub remove_share_revokes :
    (collection_id user_id : String) (now : ℕ) (db : Db) (c : Collection)
    → find_collection db collection_id ≡ some c
    → root_of c ≡ collection_id
    → or_empty c.owner_user_id ≢ user_id
    → any_row (λ (m : Member). m.user_id == user_id) db.members ≡ false
    → access_q (remove_share collection_id "user" user_id now db).1 user_id collection_id
      ≡ ok access_none
unfolding access_q row_access share_level
remove_share_revokes collection_id user_id now db c f root owner alone =
    let after = left collection_id "user" user_id now db in
    let (shares, members, users) = left_tables collection_id "user" user_id now db in
    let (c', found, owner', root') =
      left_found collection_id "user" user_id now db collection_id c f in
    let moved = best_share-members after db (root_of c') user_id after.shares members in
    let nothing : best_share after (root_of c') user_id after.shares ≡ 0 =
      moved
      ∙ ap (λ r. best_share db r user_id after.shares) (root' ∙ root)
      ∙ ap (best_share db collection_id user_id) shares
      ∙ none_left db collection_id user_id db.shares alone in
    let other : (or_empty c'.owner_user_id == user_id) ≡ false =
      ground (arith, owner', eq_iff (or_empty c'.owner_user_id) user_id) in
    ground (arith, found, nothing, other)
