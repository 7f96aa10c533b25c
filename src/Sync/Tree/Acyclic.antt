-- ===== src/Sync/Tree/Acyclic.antt =====
-- A move behind the check of IsAncestor makes no cycle: SetCollectionParent of
-- internal/syncengine/lookup.go, called by handleCollectionUpdate of internal/server/files.go.
use nubilo.Prelude.{
  ℕ, ◌≡◌, refl, sym, ◌∙◌, subst, inl, inr, String, Bool, true, false, Option, some, [], ◌==◌, arith,
  eq_iff, Bool-cases, find_row, find_row_passes, if◌then◌else◌,
}
use nubilo.Store.{Db, Collection, or_empty}
use nubilo.Store.Tx.{ok}
use nubilo.Sync.Access.{find_collection}
use nubilo.Sync.Collections.{live_at}
use nubilo.Sync.Tree.{parent_of, is_ancestor, in_ids, set_root, set_parent, set_collection_parent}
use nubilo.Sync.Tree.Ancestors.{Avoids, top, above, climb-Avoids}
use nubilo.Sync.Tree.Moves.{
  found_updated, reparented, Moved, moved, Target, to_top, under, move-parts,
}

-- The way from a collection to the top ends.
pub data Climbs (db : Db) : String → Type 0 where
  at_top : Climbs db ""
  below :
      {cur : String} (c : Collection)
      → find_collection db cur ≡ some c
      → Climbs db (parent_of c)
      → Climbs db cur

set_root-parent :
    (b : Bool) (root : String) (x : Collection)
    → parent_of (if b then set_root root x else x) ≡ parent_of x
set_root-parent true root x = refl
set_root-parent false root x = refl

set_parent-parent :
    (b : Bool) (parent : Option String) (now : ℕ) (x : Collection)
    → parent_of (if b then set_parent parent now x else x)
      ≡ (if b then or_empty parent else parent_of x)
set_parent-parent true parent now x = refl
set_parent-parent false parent now x = refl

-- The row of an id after a move: its parent is the new one, or the one that it had.
after_parent :
    (fuel : ℕ) (db after : Db) (id : String) (parent : Option String) (root : String)
    → Moved fuel db id parent root after
    → (cur : String) (c : Collection) → find_collection db cur ≡ some c
    → (d : Collection) × (find_collection after cur ≡ some d)
      × (parent_of d ≡ (if live_at id c then or_empty parent else parent_of c))
unfolding find_collection
after_parent fuel db after id parent root (moved now ids e rows) cur c h =
    let q : Collection → Bool = λ x. x.id == cur in
    let c1 : Collection = if live_at id c then set_parent parent now c else c in
    let c2 : Collection = if in_ids ids c1 then set_root root c1 else c1 in
    let first =
      found_updated q (live_at id) (set_parent parent now) db.collections c (λ x. refl) h in
    let second =
      found_updated q (in_ids ids) (set_root root) (reparented id parent now db.collections) c1
        (λ x. refl) first in
    (
      c2,
      subst (λ x. find_row q x ≡ some c2) (sym rows) second,
      set_root-parent (in_ids ids c1) root c1 ∙ set_parent-parent (live_at id c) parent now c,
    )

others_climb :
    (fuel : ℕ) (db after : Db) (id : String) (parent : Option String) (root : String)
    → Moved fuel db id parent root after
    → {cur : String} → Avoids db id cur
    → Climbs after cur
unfolding find_collection
others_climb fuel db after id parent root m top = at_top
others_climb fuel db after id parent root m {cur} (above c e apart rest) =
    let (d, there, same) = after_parent fuel db after id parent root m cur c e in
    let own =
      (eq_iff c.id cur).0 (find_row_passes (λ (x : Collection). x.id == cur) db.collections c e) in
    elim (Bool-cases (live_at id c)) [
      | inl hit ↦ absurd (apart (sym own ∙ (eq_iff c.id id).0 (ground (arith, hit))))
      | inr miss ↦
          let kept = others_climb fuel db after id parent root m rest in
          below d there (subst (Climbs after) (ground (arith, same, miss)) kept)
    ]

keeps_climbing :
    (fuel : ℕ) (db after : Db) (id : String) (parent : Option String) (root : String)
    → Moved fuel db id parent root after
    → Climbs after (or_empty parent)
    → {cur : String} → Climbs db cur
    → Climbs after cur
keeps_climbing fuel db after id parent root m up at_top = at_top
keeps_climbing fuel db after id parent root m up {cur} (below c e rest) =
    let (d, there, same) = after_parent fuel db after id parent root m cur c e in
    let kept = keeps_climbing fuel db after id parent root m up rest in
    elim (Bool-cases (live_at id c)) [
      | inl hit ↦ below d there (subst (Climbs after) (ground (arith, same, hit)) up)
      | inr miss ↦ below d there (subst (Climbs after) (ground (arith, same, miss)) kept)
    ]

Target-Climbs :
    (fuel walk : ℕ) (db after : Db) (id parent : String) (to : Option String) (root : String)
    → Target db id parent to root
    → Moved fuel db id to root after
    → is_ancestor walk db id parent ≡ some false
    → Climbs after (or_empty to)
unfolding is_ancestor
Target-Climbs fuel walk db after id parent to root to_top m h = at_top
Target-Climbs fuel walk db after id parent to root (under p e) m h =
    others_climb fuel db after id (some parent) root m (climb-Avoids walk db id [] parent h)

-- A move that IsAncestor does not forbid makes no cycle, if it succeeds.
pub move-Climbs :
    (fuel walk : ℕ) (db after : Db) (id parent : String) (now : ℕ) (cur : String)
    → is_ancestor walk db id parent ≡ some false
    → set_collection_parent fuel id parent now db ≡ some (ok tt, after)
    → Climbs db cur
    → Climbs after cur
move-Climbs fuel walk db after id parent now cur clear h way =
    let (c, to, root, e, live, own, target, m, _) = move-parts fuel id parent now db after h in
    keeps_climbing fuel db after id to root m
      (Target-Climbs fuel walk db after id parent to root target m clear) way
