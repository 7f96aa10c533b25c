-- ===== src/Sync/Tree/Ending.antt =====
-- A move behind the check of IsAncestor ends: SetCollectionParent of internal/syncengine/lookup.go,
-- called by handleCollectionUpdate of internal/server/files.go.
use nubilo.Prelude.{
  ℕ, ◌+◌, ◌*◌, ◌<◌, ◌≡◌, refl, sym, subst, inl, inr, String, false, Option, none, some, List, [],
  ◌∷◌, ◌==◌, arith, eq_iff, Bool-cases, Option-cases, any_row, find_row_passes, update, Every,
}
use nubilo.Store.{Db, Collection, or_empty, is_null}
use nubilo.Store.Tx.{Result, Err, ok, err, not_found, collection, collection_exists}
use nubilo.Sync.Access.{find_collection, root_of}
use nubilo.Sync.Collections.{live_at}
use nubilo.Sync.Tree.{
  subtree, in_ids, set_root, is_ancestor, name_taken, move_tx, settle_move, set_collection_parent,
}
use nubilo.Sync.Tree.Ancestors.{Avoids, top, climb-Avoids}
use nubilo.Sync.Tree.Moves.{reparented}
use nubilo.Sync.Tree.Subtree.{Distinct}
use nubilo.Sync.Tree.Acyclic.{Climbs, move-Climbs}
use nubilo.Sync.Tree.Depth.{Within, at_id, Deep-le}
use nubilo.Sync.Tree.Depth.After.{all_before, avoiding, subtree_ends}

settles :
    (fuel : ℕ) (c : Collection) (to : Option String) (root : String) (now : ℕ) (db : Db)
    (ids : List String)
    → subtree fuel (reparented c.id to now db.collections) (c.id ∷ []) ≡ some ids
    → (r : Result (Unit {0}) × Db) × (settle_move db (move_tx fuel c to root now db) ≡ some r)
unfolding move_tx
settles fuel c to root now db ids e = elim (Bool-cases (any_row (live_at c.id) db.collections)) [
  | inr gone ↦ ((err not_found, db), rw gone refl)
  | inl live ↦ elim (Bool-cases (name_taken c to db)) [
    | inl taken ↦ ((err collection_exists, db), rw live (rw taken refl))
    | inr free ↦
        let rows = reparented c.id to now db.collections in
        (
          (ok tt, record db { collections = update (in_ids ids) (set_root root) rows }),
          rw live (rw free (rw e refl)),
        )
  ]
]

-- What a move leaves when it answers an error.
failed_move :
    (fuel : ℕ) (id parent : String) (now : ℕ) (db after : Db) (x : Err)
    → set_collection_parent fuel id parent now db ≡ some (err x, after)
    → after ≡ db
unfolding set_collection_parent move_tx
failed_move fuel id parent now db after x h = ground (arith, h)

kept_climbing :
    (fuel walk : ℕ) (db : Db) (id parent : String) (now : ℕ) (r : Result (Unit {0}) × Db)
    → is_ancestor walk db id parent ≡ some false
    → set_collection_parent fuel id parent now db ≡ some r
    → (cur : String) → Climbs db cur
    → Climbs r.1 cur
kept_climbing fuel walk db id parent now (ok u, after) clear h cur way =
    move-Climbs fuel walk db after id parent now cur clear h way
kept_climbing fuel walk db id parent now (err x, after) clear h cur way =
    subst (λ d. Climbs d cur) (sym (failed_move fuel id parent now db after x h)) way

module _ (fuel walk n : ℕ) (db : Db) (id parent : String) (now : ℕ) (d : Distinct db.collections)
    (no_empty : find_collection db "" ≡ none)
    (all : Every (λ (c : Collection). Within n db.collections c.id) db.collections)
    (clear : is_ancestor walk db id parent ≡ some false) (enough : 2 * n + 2 < fuel) where
  runs :
      (c : Collection) (to : Option String) (root : String)
      → find_collection db id ≡ some c
      → Avoids db id (or_empty to)
      → (r : Result (Unit {0}) × Db) × (settle_move db (move_tx fuel c to root now db) ≡ some r)
  unfolding find_collection
  runs c to root e avoids =
      let own = (eq_iff c.id id).0 (find_row_passes (at_id id) db.collections c e) in
      let (j, before, up) = avoiding db id to now n d no_empty all avoids in
      let few =
        Deep-le db.collections no_empty d n (all_before db id to now n d no_empty all) before in
      let (ids, found) = subtree_ends db id to now n d no_empty all j few up fuel c e enough in
      settles fuel c to root now db ids (
        subst (λ i. subtree fuel (reparented i to now db.collections) (i ∷ []) ≡ some ids) (sym own)
          found)

  answers : (r : Result (Unit {0}) × Db) × (set_collection_parent fuel id parent now db ≡ some r)
  unfolding set_collection_parent is_ancestor
  answers =
      let avoids = climb-Avoids walk db id [] parent clear in
      elim (Option-cases (find_collection db id)) [
        | inl e ↦ ((err not_found, db), rw (set_collection_parent, e) refl)
        | inr (c, e) ↦ elim (Bool-cases (is_null c.deleted_at)) [
          | inr gone ↦ ((err not_found, db), rw (set_collection_parent, e) (rw gone refl))
          | inl live ↦ elim (Bool-cases (parent == "")) [
            | inl is_top ↦
                let (r, run) = runs c none id e top in
                (r, rw (set_collection_parent, e) (rw live (rw is_top run)))
            | inr named ↦ elim (Option-cases (find_collection db parent)) [
              | inl none_there ↦ (
                (err not_found, db),
                rw (set_collection_parent, e) (rw live (rw named (rw none_there refl))),
              )
              | inr (p, there) ↦
                  elim (Bool-cases (or_empty p.owner_user_id == or_empty c.owner_user_id)) [
                    | inr apart ↦ (
                      (err collection, db),
                      rw (set_collection_parent, e) (rw live (rw named (rw there (rw apart refl)))),
                    )
                    | inl agree ↦
                        let (r, run) = runs c (some parent) (root_of p) e avoids in
                        (
                          r,
                          rw (set_collection_parent, e)
                              (rw live (rw named (rw there (rw agree run)))),
                        )
                  ]
            ]
          ]
        ]
      ]

-- A move that IsAncestor does not forbid ends and makes no cycle: where every collection is at most n
-- levels deep, no two have one id and none has the empty id, and IsAncestor answers that the collection
-- is not above its new parent, SetCollectionParent returns with more than 2 n + 2 rounds of its
-- recursive query, and a way to the top that ended before it ends after it, from any collection,
-- whether the move succeeded or was refused.
pub move_ends :
    (fuel walk n : ℕ) (db : Db) (id parent : String) (now : ℕ)
    → Distinct db.collections
    → find_collection db "" ≡ none
    → Every (λ (c : Collection). Within n db.collections c.id) db.collections
    → is_ancestor walk db id parent ≡ some false
    → 2 * n + 2 < fuel
    → (cur : String) → Climbs db cur
    → (r : Result (Unit {0}) × Db) × (set_collection_parent fuel id parent now db ≡ some r)
      × Climbs r.1 cur
move_ends fuel walk n db id parent now d no_empty all clear enough cur way =
    let (r, run) = answers fuel walk n db id parent now d no_empty all clear enough in
    (r, run, kept_climbing fuel walk db id parent now r clear run cur way)
