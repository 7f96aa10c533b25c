-- ===== src/Sync/Tree/Lasting.antt =====
-- The tree of collections stays right: CreateCollection of internal/syncengine/engine.go, and
-- RenameCollection, TombstoneCollection and SetCollectionParent of internal/syncengine/lookup.go.
use nubilo.Prelude.{
  ℕ, ◌+◌, ◌≡◌, refl, sym, subst, inl, inr, String, Bool, false, not, ◌&&◌, Option, some, [], ◌==◌,
  arith, Bool-cases, Option-cases, any_row, find_row, select,
}
use nubilo.Store.{Db, Collection, Share, PrefRow, is_null, sql_eq}
use nubilo.Store.Env.{Env}
use nubilo.Store.Tx.{ok, bind_parts}
use nubilo.Sync.Access.{find_collection}
use nubilo.Sync.Collections.{
  same_name, create_collection, live_at, update_collection, rename_collection,
  tombstone_collection_tx, tombstone_collection,
}
use nubilo.Sync.Tree.{set_collection_parent, set_root, set_parent, in_ids}
use nubilo.Sync.Tree.Moves.{Moved, moved, move-parts}
use nubilo.Sync.Tree.Roots.{RootsAgree, move-RootsAgree}
use nubilo.Sync.Tree.Owners.{OwnersAgree}
use nubilo.Sync.Tree.Subtree.{Distinct}
use nubilo.Sync.Tree.Trace.{update-Distinct}
use nubilo.Sync.Tree.Creation.{with_write-IsTree, create-IsTree}
use nubilo.Sync.Tree.Growth.{IsTree, update-IsTree}

-- A call that changes collections, and the state that it leaves. A new id is one that no row names.
pub data TreeStep (env : Env) : Db → Db → Type 0 where
  created :
      {db : Db} (id : String) (now : ℕ) (owner kind name parent : String) (metadata : Option String)
      → any_row (λ (x : Collection). sql_eq x.parent_id id) db.collections ≡ false
      → TreeStep env db (create_collection env id now owner kind name parent metadata db).1
  named :
      {db : Db} (id name : String) (now : ℕ) → TreeStep env db (rename_collection id name now db).1
  deleted : {db : Db} (id : String) (now : ℕ) → TreeStep env db (tombstone_collection id now db).1
  moves :
      {db after : Db} (fuel : ℕ) (id parent : String) (now : ℕ)
      → set_collection_parent fuel id parent now db ≡ some (ok tt, after)
      → TreeStep env db after

pub data TreeSteps (env : Env) : Db → Db → Type 0 where
  done : {db : Db} → TreeSteps env db db
  next :
      {db mid after : Db} → TreeStep env db mid → TreeSteps env mid after → TreeSteps env db after

update_collection-IsTree :
    (id : String) (f : Collection → Collection) (db : Db) (r : Unit {0} × Db)
    → ((x : Collection)
        → ((f x).id ≡ x.id)
          × ((f x).parent_id ≡ x.parent_id)
          × ((f x).root_id ≡ x.root_id)
          × ((f x).owner_user_id ≡ x.owner_user_id))
    → update_collection id f db ≡ ok r
    → IsTree db
    → IsTree r.1
unfolding update_collection
update_collection-IsTree id f db r same h tree =
    update-IsTree (live_at id) f db r.1 same (ground (arith, h)) tree

abbrev rename_clash : String → String → Collection → Db → Bool
rename_clash id name c db =
    any_row
      (λ (x : Collection). not (x.id == id) && same_name c.owner_user_id c.kind c.parent_id name x)
      db.collections
    && is_null c.deleted_at

rename-IsTree :
    (id name : String) (now : ℕ) (db : Db) → IsTree db → IsTree (rename_collection id name now db).1
unfolding rename_collection
rename-IsTree id name now db tree =
    let f : Collection → Collection =
      λ x. record x { name = name; updated_at = now; revision = x.revision + 1 } in
    let kept =
      with_write-IsTree (update_collection id f) db
        (λ r e. update_collection-IsTree id f db r (λ x. (refl, refl, refl, refl)) e tree) tree in
    elim (Bool-cases (name == "")) [
      | inl refused ↦ rw (rename_collection, refused) tree
      | inr fine ↦ elim (Option-cases (find_collection db id)) [
        | inl e ↦ rw (rename_collection, fine) (rw e tree)
        | inr (c, e) ↦ elim (Bool-cases (rename_clash id name c db)) [
          | inl taken ↦ rw (rename_collection, fine) (rw e (rw taken tree))
          | inr free ↦ rw (rename_collection, fine) (rw e (rw free kept))
        ]
      ]
    ]

tombstone_tx-IsTree :
    (id : String) (now : ℕ) (db : Db) (r : Unit {0} × Db)
    → tombstone_collection_tx id now db ≡ ok r
    → IsTree db
    → IsTree r.1
unfolding tombstone_collection_tx find_collection
tombstone_tx-IsTree id now db r h tree =
    let f : Collection → Collection =
      λ x. record x { deleted_at = some now; updated_at = now; revision = x.revision + 1 } in
    let (u, mid, e, k) = bind_parts (update_collection id f) _ db {r = r} h in
    let kept = update_collection-IsTree id f db (u, mid) (λ x. (refl, refl, refl, refl)) e tree in
    let end : record mid {
      shares = select (λ (x : Share). not (x.collection_id == id)) mid.shares;
      prefs = select (λ (x : PrefRow). not (x.collection_id == id)) mid.prefs;
    }
        ≡ r.1 =
      ground (arith, k) in
    subst IsTree end kept

deletion-IsTree :
    (id : String) (now : ℕ) (db : Db) → IsTree db → IsTree (tombstone_collection id now db).1
unfolding tombstone_collection
deletion-IsTree id now db tree =
    with_write-IsTree (tombstone_collection_tx id now) db
      (λ r e. tombstone_tx-IsTree id now db r e tree) tree

Moved-Distinct :
    (fuel : ℕ) (db after : Db) (id : String) (to : Option String) (root : String)
    → Moved fuel db id to root after
    → Distinct db.collections
    → Distinct after.collections
Moved-Distinct fuel db after id to root (moved now ids sub rows) d =
    let first = update-Distinct (live_at id) (set_parent to now) db.collections (λ x. refl) d in
    subst Distinct (sym rows) (update-Distinct (in_ids ids) (set_root root) _ (λ x. refl) first)

move-IsTree :
    (fuel : ℕ) (db after : Db) (id parent : String) (now : ℕ)
    → set_collection_parent fuel id parent now db ≡ some (ok tt, after)
    → IsTree db
    → IsTree after
move-IsTree fuel db after id parent now h (distinct, roots, owners) =
    let (c0, to, root, e0, live, own, target, m, kept) = move-parts fuel id parent now db after h in
    let (roots2, owners2) =
      move-RootsAgree fuel db after id parent now distinct h (roots, owners) in
    (Moved-Distinct fuel db after id to root m distinct, roots2, owners2)

step-IsTree : (env : Env) {db after : Db} → TreeStep env db after → IsTree db → IsTree after
step-IsTree env (created id now owner kind name parent metadata unnamed) tree =
    create-IsTree env id now owner kind name parent metadata _ unnamed tree
step-IsTree env (named id name now) tree = rename-IsTree id name now _ tree
step-IsTree env (deleted id now) tree = deletion-IsTree id now _ tree
step-IsTree env (moves fuel id parent now h) tree = move-IsTree fuel _ _ id parent now h tree

none-IsTree : (db : Db) → db.collections ≡ [] → IsTree db
unfolding find_collection find_row
none-IsTree db e = (
  subst Distinct (sym e) tt,
  λ cur c h. absurd (ground (arith, e, h)),
  λ cur c t q h up there. absurd (ground (arith, e, h)),
)

-- The tree of collections stays right: after any sequence of calls of CreateCollection (with an id that
-- no row names as its parent), RenameCollection and TombstoneCollection, failed ones included, and of
-- SetCollectionParent that succeed, from a database without collections, no two collections have one id,
-- every collection at the top is its own root, and every other one has the root and the owner of its
-- parent.
pub steps-IsTree :
    (env : Env) (db after : Db)
    → db.collections ≡ []
    → TreeSteps env db after
    → Distinct after.collections × RootsAgree after × OwnersAgree after
steps-IsTree env db after empty steps = go steps (none-IsTree db empty)
  where
    go : {mid : Db} → TreeSteps env mid after → IsTree mid → IsTree after
    go done tree = tree
    go (next s rest) tree = go rest (step-IsTree env s tree)
