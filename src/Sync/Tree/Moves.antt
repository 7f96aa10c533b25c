-- ===== src/Sync/Tree/Moves.antt =====
-- A move of a collection (SetCollectionParent of internal/syncengine/lookup.go), behind the check of
-- IsAncestor that its caller makes (handleCollectionUpdate of internal/server/files.go).
use nubilo.Prelude.{
  ◌∙◌, ap, ℕ, ◌≡◌, sym, subst, inl, inr, String, Bool, true, Option, none, some, List, [], ◌∷◌,
  ◌==◌, arith, eq_iff, Bool-cases, Option-cases, any_row, find_row, find_row_passes, update,
  if◌then◌else◌,
}
use nubilo.Store.{Db, Collection, or_empty, is_null}
use nubilo.Store.Tx.{ok}
use nubilo.Sync.Access.{find_collection, root_of}
use nubilo.Sync.Collections.{live_at}
use nubilo.Sync.Tree.{
  subtree, in_ids, set_root, set_parent, name_taken, move_tx, settle_move, set_collection_parent,
}

-- What a lookup finds after an update that keeps what it looks for.
pub found_updated :
    (q p : Collection → Bool) (f : Collection → Collection) (cs : List Collection) (c : Collection)
    → ((x : Collection) → q (f x) ≡ q x)
    → find_row q cs ≡ some c
    → find_row q (update p f cs) ≡ some (if p c then f c else c)
unfolding find_row update
found_updated q p f [] c keep h = ground arith
found_updated q p f (x ∷ xs) c keep h = ground (arith, keep x, found_updated q p f xs c keep)

abbrev pub reparented : String → Option String → ℕ → List Collection → List Collection
reparented id parent now cs = update (live_at id) (set_parent parent now) cs

-- What a move does to the rows: the new parent, and the new root of all that is below then.
pub data Moved (fuel : ℕ) (db : Db) (id : String) (parent : Option String) (root : String)
    (after : Db) : Type 0 where
  moved :
      (now : ℕ) (ids : List String)
      → subtree fuel (reparented id parent now db.collections) (id ∷ []) ≡ some ids
      → after.collections
        ≡ update (in_ids ids) (set_root root) (reparented id parent now db.collections)
      → Moved fuel db id parent root after

move_tx-Moved :
    (fuel : ℕ) (c : Collection) (parent : Option String) (root : String) (now : ℕ) (db after : Db)
    → settle_move db (move_tx fuel c parent root now db) ≡ some (ok tt, after)
    → Moved fuel db c.id parent root after
unfolding move_tx
move_tx-Moved fuel c parent root now db after h =
    elim (Bool-cases (any_row (live_at c.id) db.collections)) [
      | inr gone ↦ absurd (ground (arith, gone, h))
      | inl live ↦ elim (Bool-cases (name_taken c parent db)) [
        | inl taken ↦ absurd (ground (arith, live, taken, h))
        | inr free ↦
            elim (Option-cases
              (subtree fuel (reparented c.id parent now db.collections) (c.id ∷ []))) [
                | inl e ↦ absurd (ground (arith, live, free, e, h))
                | inr (ids, e) ↦ moved now ids e (ground (arith, live, free, e, h))
              ]
      ]
    ]

-- The new parent's row, or none at the top, and the root that it gives.
pub data Target (db : Db) (id : String) : String → Option String → String → Type 0 where
  to_top : Target db id "" none id
  under :
      {parent : String} (p : Collection)
      → find_collection db parent ≡ some p
      → Target db id parent (some parent) (root_of p)

-- The new parent's row has the owner of the collection.
abbrev pub OwnerKept : Db → Option String → Collection → Type 0
OwnerKept db to c =
    (t : String) (p : Collection)
    → to ≡ some t
    → find_collection db t ≡ some p
    → or_empty c.owner_user_id ≡ or_empty p.owner_user_id

owner_kept :
    (db : Db) (parent : String) (p c : Collection)
    → find_collection db parent ≡ some p
    → (or_empty p.owner_user_id == or_empty c.owner_user_id) ≡ true
    → OwnerKept db (some parent) c
owner_kept db parent p c e agree t q is there =
    let same : parent ≡ t = ground (arith, is) in
    let rows : some p ≡ some q =
      sym e ∙ subst (λ x. find_collection db x ≡ some q) (sym same) there in
    let one : p ≡ q = ground (arith, rows) in
    sym ((eq_iff (or_empty p.owner_user_id) (or_empty c.owner_user_id)).0 agree)
    ∙ ap (λ (x : Collection). or_empty x.owner_user_id) one

pub move-parts :
    (fuel : ℕ) (id parent : String) (now : ℕ) (db after : Db)
    → set_collection_parent fuel id parent now db ≡ some (ok tt, after)
    → (c : Collection) × (to : Option String) × (root : String) × (find_collection db id ≡ some c)
      × (is_null c.deleted_at ≡ true)
      × (c.id ≡ id)
      × Target db id parent to root
      × Moved fuel db id to root after
      × OwnerKept db to c
unfolding set_collection_parent find_collection
move-parts fuel id parent now db after h = elim (Option-cases (find_collection db id)) [
  | inl e ↦ absurd (ground (arith, e, h))
  | inr (c, e) ↦
      let own =
        (eq_iff c.id id).0 (find_row_passes (λ (x : Collection). x.id == id) db.collections c e) in
      elim (Bool-cases (is_null c.deleted_at)) [
        | inr gone ↦ absurd (ground (arith, e, gone, h))
        | inl live ↦ elim (Bool-cases (parent == "")) [
          | inl is_top ↦
              let run =
                move_tx-Moved fuel c none id now db after (ground (arith, e, live, is_top, h)) in
              (
                c,
                none,
                id,
                e,
                live,
                own,
                subst (λ x. Target db id x none id) (sym ((eq_iff parent "").0 is_top)) to_top,
                subst (λ x. Moved fuel db x none id after) own run,
                λ t q is there. ground (arith, is),
              )
          | inr named ↦ elim (Option-cases (find_collection db parent)) [
            | inl none_there ↦ absurd (ground (arith, e, live, named, none_there, h))
            | inr (p, there) ↦
                elim (Bool-cases (or_empty p.owner_user_id == or_empty c.owner_user_id)) [
                  | inr apart ↦ absurd (ground (arith, e, live, named, there, apart, h))
                  | inl agree ↦
                      let run =
                        move_tx-Moved fuel c (some parent) (root_of p) now db after
                          (ground (arith, e, live, named, there, agree, h)) in
                      (
                        c,
                        some parent,
                        root_of p,
                        e,
                        live,
                        own,
                        under p there,
                        subst (λ x. Moved fuel db x (some parent) (root_of p) after) own run,
                        owner_kept db parent p c there agree,
                      )
                ]
          ]
        ]
      ]
]
