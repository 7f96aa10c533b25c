-- ===== src/Tests/Tree.antt =====
-- Witnesses of the tree of collections: "a" with the child "b", which has the child "c"; "b" is moved.
use nubilo.Prelude.{
  none, ◌≡◌, refl, Bool, some, [], ◌∷◌, arith, eq_iff, eq_refl, any_row, find_row, update, select,
}
use nubilo.Store.{Db, Collection, empty_db}
use nubilo.Sync.Access.{
  find_collection, find_user, root_of, access_q, row_access, user_active, best_share, share_match,
  share_access, share_level,
}
use nubilo.Sync.Collections.{
  same_name, has_owner, insert_collection, new_collection, create_collection,
}
use nubilo.Sync.Tree.{
  climb, is_ancestor, subtree, children_of, name_taken, move_tx, set_collection_parent,
}
use nubilo.Sync.Tree.Ancestors.{is_ancestor_ends}
use nubilo.Sync.Tree.Acyclic.{Climbs, below, at_top as top_end}
use nubilo.Sync.Tree.Depth.{deeper, at_top}
use nubilo.Sync.Tree.Ending.{move_ends}
use nubilo.Sync.Tree.Roots.{RootsAgree}
use nubilo.Sync.Tree.Lasting.{created, moves, done, next, steps-IsTree}
use nubilo.Sync.Tree.Subtree.{Distinct}
use nubilo.Sync.Tree.Owners.{OwnersAgree}
use nubilo.Sync.Tree.Access.{tree_access, itself, above, access_q-tree_access}
use nubilo.Authz.{access_write}
use nubilo.Store.Tx.{Result, ok, with_write}
use nubilo.Tests.World.{env, folder, world, share_row}

abbrev a : Collection
a = record (folder "a" "anna") { root_id = some "a" }

abbrev b : Collection
b = record (folder "b" "anna") { root_id = some "a"; parent_id = some "a" }

abbrev c : Collection
c = record (folder "c" "anna") { root_id = some "a"; parent_id = some "b" }

abbrev d : Collection
d = record (folder "d" "anna") { root_id = some "d" }

abbrev forest : Db
forest = record world {
  collections = a ∷ b ∷ c ∷ d ∷ [];
  shares = record share_row { collection_id = "a" } ∷ [];
}

abbrev moved_forest : Db
moved_forest = record forest {
  collections =
      a
      ∷ record b { root_id = some "d"; parent_id = some "d"; updated_at = 9; revision = 2 }
      ∷ record c { root_id = some "d" }
      ∷ d
      ∷ [];
}

-- On a cycle the walk ends too.
abbrev cycle : Db
cycle = record empty_db { collections = record a { parent_id = some "b" } ∷ b ∷ [] }

is_ancestor_ends_example : (x : Bool) × (is_ancestor 3 cycle "z" "b" ≡ some x)
is_ancestor_ends_example = is_ancestor_ends 3 cycle "z" "b" (omega arith)

-- "b" is moved below "d".
move_ends_example :
    (r : Result (Unit {0}) × Db) × (set_collection_parent 9 "b" "d" 9 forest ≡ some r)
    × Climbs r.1 "c"
unfolding is_ancestor climb find_collection find_row any_row
move_ends_example =
    let b_deep = deeper b refl (deeper a refl at_top) in
    move_ends 9 5 3 forest "b" "d" 9 (refl, (refl, (refl, (refl, tt)))) refl
      (
        (1, omega arith, deeper a refl at_top),
        (
          (2, omega arith, b_deep),
          ((3, omega arith, deeper c refl b_deep), ((1, omega arith, deeper d refl at_top), tt)),
        ),
      )
      refl (omega arith) "c" (below c refl (below b refl (below a refl top_end)))

forest-RootsAgree : RootsAgree forest
unfolding find_collection find_row root_of
forest-RootsAgree cur x h = (
  λ top. ground (arith, h, top, eq_iff "a" cur, eq_iff "b" cur, eq_iff "c" cur, eq_iff "d" cur),
  λ parent p up there. ground (
    arith,
    h,
    up,
    there,
    eq_iff "a" parent,
    eq_iff "b" parent,
    eq_iff "c" parent,
    eq_iff "d" parent,
    eq_refl "a",
    eq_refl "b",
  ),
)

forest-OwnersAgree : OwnersAgree forest
unfolding find_collection find_row
forest-OwnersAgree cur x parent p h up there = ground (arith, h, there)

abbrev bare : Db
bare = record world { collections = [] }

abbrev with_a : Db
with_a = (create_collection env "a" 1 "anna" "files" "A" "" none bare).1

abbrev with_b : Db
with_b = (create_collection env "b" 2 "anna" "files" "B" "a" none with_a).1

abbrev grown : Db
grown = record world {
  collections =
      new_collection env "a" 1 "files" "A" "" none "anna" "a"
      ∷ record (new_collection env "b" 2 "files" "B" "" none "anna" "b") {
        updated_at = 3;
        revision = 2;
      }
      ∷ [];
}

-- "b" is created in "a" and moved to the top.
steps-IsTree_example : Distinct grown.collections × RootsAgree grown × OwnersAgree grown
unfolding create_collection insert_collection has_owner find_user with_write is_ancestor climb
    find_collection find_row any_row update select set_collection_parent move_tx subtree children_of
    name_taken same_name root_of
steps-IsTree_example = steps-IsTree env bare grown refl (
    next (created "a" 1 "anna" "files" "A" "" none refl) (
      next (created "b" 2 "anna" "files" "B" "a" none refl)
        (next {mid = grown} (moves 5 "b" "" 3 refl) done)))

-- Ben reads and writes what is below the folder that is shared with him.
access_q-tree_access_example : access_q forest "ben" "c" ≡ ok (tree_access forest "ben" a)
unfolding find_collection find_row
access_q-tree_access_example =
    access_q-tree_access forest "ben" "c" a forest-RootsAgree forest-OwnersAgree
      (above {c = c} refl refl (above {c = b} refl refl (itself refl refl)))

shared_below : access_q forest "ben" "c" ≡ ok access_write
unfolding access_q row_access user_active find_user find_collection find_row root_of best_share
    share_match share_access share_level
shared_below = refl
