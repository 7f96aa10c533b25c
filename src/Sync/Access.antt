-- ===== src/Sync/Access.antt =====
-- A user's access to a collection, by the check of one collection (accessQ, accessForQ) and by the
-- SQL that filters listings (accessFilterSQL, accessExprSQL): internal/syncengine/access.go.
pub mod Agreement
use nubilo.Prelude.{
  ℕ, String, Bool, true, false, not, ◌&&◌, ◌||◌, Option, none, some, List, [], ◌∷◌, ◌==◌, max,
  nat_eq, any_row, find_row, select, order_by, map, if◌then◌else◌,
}
use nubilo.Identity.Device.{Device, revoked, system, is_active}
use nubilo.Authz.{Access, access_none, access_read, access_write, access_owner, access_string}
use nubilo.Store.{Db, User, Member, Collection, Share, or_empty, coalesce, sql_eq}
use nubilo.Store.Env.{Env}
use nubilo.Store.Tx.{Result, ok, err, not_found, scan}

pub record Scope : Type 0 where
  pub user_id : String
  pub all : Bool

unfoldable pub scope_all : Scope
scope_all = record { user_id = ""; all = true }

unfoldable pub user_scope : String → Scope
user_scope user_id = record { user_id = user_id; all = false }

unfoldable pub scope_of : Option Device → Scope
unfolding scope_all user_scope system
scope_of none = record { user_id = ""; all = false }
scope_of (some d) = if system d then scope_all else user_scope d.user_id

unfoldable pub find_user : Db → String → Option User
find_user db id = find_row (λ (u : User). u.id == id) db.users

unfoldable pub find_collection : Db → String → Option Collection
find_collection db id = find_row (λ (c : Collection). c.id == id) db.collections

unfoldable pub in_group : Db → String → String → Bool
in_group db group_id user_id =
    any_row (λ (m : Member). m.group_id == group_id && m.user_id == user_id) db.members

-- shareMatchSQL
unfoldable pub share_match : Db → String → Share → Bool
unfolding in_group
share_match db user_id s =
    s.principal_type == "user" && s.principal_id == user_id
    || s.principal_type == "group" && in_group db s.principal_id user_id

-- shareAccessSQL
unfoldable pub share_access : Share → ℕ
share_access s = if s.access == "rw" then 2 else 1

-- SELECT MAX(shareAccessSQL) FROM shares WHERE collection_id = root AND shareMatchSQL; 0 for NULL.
unfoldable pub best_share : Db → String → String → List Share → ℕ
unfolding share_match share_access
best_share db root user_id [] = 0
best_share db root user_id (s ∷ rest) =
    let others = best_share db root user_id rest in
    if s.collection_id == root && share_match db user_id s
    then max (share_access s) others
    else others

-- COALESCE(root_id, id)
unfoldable pub root_of : Collection → String
root_of c = coalesce c.root_id c.id

-- The status query of accessQ: no row, or a status other than active, is no access.
unfoldable pub user_active : Db → String → Bool
unfolding find_user
user_active db id = elim (find_user db id) [ none ↦ false | some u ↦ is_active u.status ]

-- The switch on best.Int64.
unfoldable pub share_level : ℕ → Access
share_level best =
    if nat_eq best 2 then access_write else if nat_eq best 1 then access_read else access_none

-- accessQ from the row of the collection on.
unfoldable pub row_access : Db → String → Collection → Access
unfolding user_active best_share root_of share_level
row_access db user_id c =
    if not (user_active db user_id)
    then access_none
    else if or_empty c.owner_user_id == user_id
    then access_owner
    else if not (user_active db (or_empty c.owner_user_id))
    then access_none
    else share_level (best_share db (root_of c) user_id db.shares)

unfoldable pub access_q : Db → String → String → Result Access
unfolding find_collection row_access
access_q db user_id collection_id =
    if user_id == "" then ok access_none else elim (find_collection db collection_id) [
      | none ↦ err not_found
      | some c ↦ ok (row_access db user_id c)
    ]

unfoldable pub access_for_q : Db → Option Device → String → Result Access
unfolding access_q system revoked
access_for_q db none collection_id = ok access_none
access_for_q db (some d) collection_id =
    if revoked d
    then ok access_none
    else if system d
    then elim (find_collection db collection_id) [ none ↦ err not_found | some c ↦ ok access_owner ]
    else access_q db d.user_id collection_id

-- EXISTS (SELECT 1 FROM users ou WHERE ou.id = c.owner_user_id AND ou.status = 'active')
unfoldable pub owner_active : Db → Collection → Bool
owner_active db c =
    any_row (λ (u : User). sql_eq c.owner_user_id u.id && is_active u.status) db.users

-- accessFilterSQL
unfoldable pub access_filter : Db → String → Collection → Bool
unfolding share_match root_of owner_active
access_filter db user_id c =
    sql_eq c.owner_user_id user_id
    || any_row (λ (s : Share). s.collection_id == root_of c && share_match db user_id s) db.shares
      && owner_active db c

-- accessExprSQL: the join with the owner's row leaves no share where the owner is not active.
unfoldable pub access_expr_sql : Db → String → Collection → Access
unfolding best_share root_of owner_active
access_expr_sql db user_id c =
    if sql_eq c.owner_user_id user_id
    then access_owner
    else if owner_active db c
    then best_share db (root_of c) user_id db.shares
    else 0

-- Scope.filter and Scope.accessExpr
unfoldable pub scope_filter : Db → Scope → Collection → Bool
unfolding access_filter
scope_filter db sc c = if sc.all then true else access_filter db sc.user_id c

unfoldable pub access_expr : Db → Scope → Collection → Access
unfolding access_expr_sql
access_expr db sc c = if sc.all then access_owner else access_expr_sql db sc.user_id c

-- GetCollections: tombstones included, each row with the name of the caller's access.
unfoldable pub get_collections : Db → Scope → List (Collection × String)
unfolding scope_filter access_expr access_string
get_collections db sc =
    map (λ (c : Collection). (c, access_string (access_expr db sc c)))
      (order_by (λ (c : Collection). c.created_at) (select (scope_filter db sc) db.collections))

-- The mirror device of a collection is the only one that writes to it, but for system devices.
unfoldable pub mirror_read_only : Env → Db → Device → String → Result Bool
unfolding system find_collection
mirror_read_only env db d collection_id =
    if system d then ok false else elim (find_collection db collection_id) [
      | none ↦ ok false
      | some c ↦ elim (env.json_mirror c.metadata) [
        | none ↦ ok false
        | some m ↦ elim m.on [ none ↦ err scan | some on ↦ ok (on && not (m.writer == d.id)) ]
      ]
    ]
