-- ===== src/Sync/Access/Agreement.antt =====
-- The check of one collection and the SQL that filters listings agree.
use nubilo.Prelude.{
  ℕ, ◌≤◌, ◌≡◌, ◌≢◌, refl, ap, inl, inr, String, true, false, ◌&&◌, none, some, List, [], ◌∷◌, arith,
  ◌==◌, eq_iff, leb, any_row, find_row, Option-cases,
}
use nubilo.Identity.Device.{is_active}
use nubilo.Store.{Db, User, Collection, Share, sql_eq}
use nubilo.Sync.Access.{
  share_match, best_share, root_of, user_active, find_user, share_level, row_access, owner_active,
  access_filter, access_expr_sql,
}

-- PRIMARY KEY of users: no two rows have one id.
abbrev pub IsKeyed : List User → Type 0
IsKeyed [] = Unit
IsKeyed (u ∷ us) = (any_row (λ (v : User). v.id == u.id) us ≡ false) × IsKeyed us

pub best_share-le :
    (db : Db) (root user_id : String) (ss : List Share) → best_share db root user_id ss ≤ 2
unfolding best_share
best_share-le db root user_id [] = omega arith
best_share-le db root user_id (s ∷ ss) = ground (arith, best_share-le db root user_id ss)

-- A share matches exactly when the best one grants something.
any_share-best :
    (db : Db) (root user_id : String) (ss : List Share)
    → any_row (λ (s : Share). s.collection_id == root && share_match db user_id s) ss
      ≡ leb 1 (best_share db root user_id ss)
unfolding best_share any_row
any_share-best db root user_id [] = refl
any_share-best db root user_id (s ∷ ss) = ground (arith, any_share-best db root user_id ss)

share_level-id : (n : ℕ) → n ≤ 2 → share_level n ≡ n
unfolding share_level
share_level-id n h = ground arith

-- With unique ids, the row that the status query finds is the only one that EXISTS looks at.
no_other :
    (us : List User) (k : String)
    → any_row (λ (v : User). v.id == k) us ≡ false
    → any_row (λ (v : User). k == v.id && is_active v.status) us ≡ false
unfolding any_row
no_other [] k h = refl
no_other (u ∷ us) k h = ground (arith, no_other us k, eq_iff k u.id, eq_iff u.id k)

owner_row :
    (us : List User) (owner : String)
    → IsKeyed us
    → any_row (λ (u : User). owner == u.id && is_active u.status) us
      ≡ elim (find_row (λ (u : User). u.id == owner) us) [
        | none ↦ false
        | some u ↦ is_active u.status
      ]
unfolding any_row find_row
owner_row [] owner h = refl
owner_row (u ∷ us) owner h =
    ground
      (arith, owner_row us owner h.1, eq_iff owner u.id, eq_iff u.id owner, no_other us u.id h.0)

owner_active-eq :
    (db : Db) (c : Collection) (owner : String)
    → IsKeyed db.users
    → c.owner_user_id ≡ some owner
    → owner_active db c ≡ user_active db owner
unfolding owner_active user_active find_user
owner_active-eq db c owner h e = rw e (owner_row db.users owner h)

owner_active-null :
    (us : List User) (c : Collection)
    → c.owner_user_id ≡ none
    → any_row (λ (u : User). sql_eq c.owner_user_id u.id && is_active u.status) us ≡ false
unfolding any_row
owner_active-null [] c e = refl
owner_active-null (u ∷ us) c e = ground (arith, owner_active-null us c e)

module _ (db : Db) (user_id : String) (c : Collection) (keyed : IsKeyed db.users)
    (nobody : user_active db "" ≡ false) (act : user_active db user_id ≡ true) where
  user_id-ne : user_id ≢ ""
  user_id-ne e = cc (ap (user_active db) e)

  -- Without an owner, and with the empty text for one, no share counts on either side.
  agree_owned :
      (owner : String)
      → c.owner_user_id ≡ some owner
      → access_expr_sql db user_id c ≡ row_access db user_id c
  unfolding access_expr_sql row_access
  agree_owned owner e = rw (owner_active-eq db c owner keyed e) (
      ground (
        arith,
        e,
        best_share-le db (root_of c) user_id db.shares,
        share_level-id (best_share db (root_of c) user_id db.shares),
      ))

  agree_null : c.owner_user_id ≡ none → access_expr_sql db user_id c ≡ row_access db user_id c
  unfolding access_expr_sql row_access owner_active
  agree_null e =
      rw (owner_active-null db.users c e) (ground (arith, e, eq_iff "" user_id, user_id-ne))

  filter_agrees : access_filter db user_id c ≡ leb 1 (access_expr_sql db user_id c)
  unfolding access_filter access_expr_sql
  filter_agrees = rw (any_share-best db (root_of c) user_id db.shares) (ground arith)

  -- For an active user, the access that the listing query computes is the one that the check of the
  -- single collection computes, and the listing's filter passes exactly the collections at which that
  -- access is read or more. (User ids are unique, and no active user has the empty id.)
  pub listing_agrees :
      (access_expr_sql db user_id c ≡ row_access db user_id c)
      × (access_filter db user_id c ≡ leb 1 (row_access db user_id c))
  listing_agrees =
      let same : access_expr_sql db user_id c ≡ row_access db user_id c =
        elim (Option-cases c.owner_user_id) [
          | inl e ↦ agree_null e
          | inr (owner, e) ↦ agree_owned owner e
        ] in
      (same, rw (← same) filter_agrees)
