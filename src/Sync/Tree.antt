-- ===== src/Sync/Tree.antt =====
-- The tree that collections form: IsAncestor of internal/syncengine/tree.go and SetCollectionParent of
-- internal/syncengine/lookup.go. What needs a loop has `fuel`; none says that it ran out. The recursive
-- query (WITH RECURSIVE … UNION ALL) goes through the tree a level at a time.
pub mod Ancestors
pub mod Moves
pub mod Acyclic
pub mod Subtree
pub mod Trace
pub mod Owners
pub mod Roots
pub mod Access
pub mod Growth
pub mod Creation
pub mod Lasting
pub mod Depth
pub mod Ending
use nubilo.Prelude.{
  ℕ, zero, suc, ◌+◌, String, Bool, true, false, not, ◌&&◌, ◌||◌, Option, none, some, List, [], ◌∷◌,
  ◌++◌, ◌==◌, map, any_row, find_row, select, update, if◌then◌else◌,
}
use nubilo.Store.{Db, Collection, or_empty, is_null, sql_eq}
use nubilo.Store.Tx.{Result, ok, err, not_found, collection, collection_exists}
use nubilo.Sync.Access.{find_collection, root_of}
use nubilo.Sync.Collections.{same_name, live_at}

abbrev pub parent_of : Collection → String
parent_of c = or_empty c.parent_id

-- The walk from `cur` to the top; true also where it cannot tell.
unfoldable pub climb : ℕ → Db → String → List String → String → Option Bool
unfolding find_collection
climb zero db id seen cur = none
climb (suc fuel) db id seen cur =
    let next : Option Bool = elim (find_collection db cur) [
      | none ↦ some true
      | some c ↦ climb fuel db id (cur ∷ seen) (parent_of c)
    ] in
    if cur == ""
    then some false
    else if cur == id || any_row (λ s. s == cur) seen
    then some true
    else next

unfoldable pub is_ancestor : ℕ → Db → String → String → Option Bool
unfolding climb
is_ancestor fuel db id maybe_child = climb fuel db id [] maybe_child

-- The ids of a level of the tree below `ids`.
unfoldable pub children_of : List String → List Collection → List String
children_of ids cs =
    map (λ (c : Collection). c.id)
      (select (λ (c : Collection). any_row (sql_eq c.parent_id) ids) cs)

-- WITH RECURSIVE sub(id): `ids` and everything below them.
unfoldable pub subtree : ℕ → List Collection → List String → Option (List String)
unfolding children_of
subtree zero cs ids = none
subtree (suc fuel) cs [] = some []
subtree (suc fuel) cs (id ∷ ids) = elim (subtree fuel cs (children_of (id ∷ ids) cs)) [
  | none ↦ none
  | some below ↦ some ((id ∷ ids) ++ below)
]

abbrev pub in_ids : List String → Collection → Bool
in_ids ids c = any_row (λ s. s == c.id) ids

abbrev pub set_root : String → Collection → Collection
set_root root x = record x { root_id = some root }

abbrev pub set_parent : Option String → ℕ → Collection → Collection
set_parent parent now x = record x {
  parent_id = parent;
  updated_at = now;
  revision = x.revision + 1;
}

-- A name that the new parent has already.
unfoldable pub name_taken : Collection → Option String → Db → Bool
unfolding same_name
name_taken c parent db =
    any_row
      (λ (x : Collection). not (x.id == c.id) && same_name c.owner_user_id c.kind parent c.name x)
      db.collections

-- The two UPDATEs: the parent of one collection, and the root of all that are below it then.
unfoldable pub move_tx :
    ℕ → Collection → Option String → String → ℕ → Db → Option (Result (Unit {0} × Db))
unfolding name_taken subtree
move_tx fuel c parent root now db =
    let moved = update (live_at c.id) (set_parent parent now) db.collections in
    if not (any_row (live_at c.id) db.collections)
    then some (err not_found)
    else if name_taken c parent db
    then some (err collection_exists)
    else elim (subtree fuel moved (c.id ∷ [])) [
      | none ↦ none
      | some ids ↦
          some (ok (tt, record db { collections = update (in_ids ids) (set_root root) moved }))
    ]

abbrev pub settle_move : Db → Option (Result (Unit {0} × Db)) → Option (Result (Unit {0}) × Db)
settle_move db none = none
settle_move db (some (ok (u, after))) = some (ok u, after)
settle_move db (some (err e)) = some (err e, db)

unfoldable pub set_collection_parent :
    ℕ → String → String → ℕ → Db → Option (Result (Unit {0}) × Db)
unfolding find_collection root_of move_tx
set_collection_parent fuel id parent now db = elim (find_collection db id) [
  | none ↦ some (err not_found, db)
  | some c ↦
      if not (is_null c.deleted_at)
      then some (err not_found, db)
      else if parent == ""
      then settle_move db (move_tx fuel c none id now db)
      else elim (find_collection db parent) [
        | none ↦ some (err not_found, db)
        | some p ↦
            if not (or_empty p.owner_user_id == or_empty c.owner_user_id)
            then some (err collection, db)
            else settle_move db (move_tx fuel c (some parent) (root_of p) now db)
      ]
]
