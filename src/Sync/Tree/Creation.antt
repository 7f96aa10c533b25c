-- ===== src/Sync/Tree/Creation.antt =====
-- CreateCollection of internal/syncengine/engine.go keeps the tree of collections right.
use nubilo.Prelude.{
  ℕ, ◌≡◌, refl, sym, subst, inl, inr, String, true, false, ◌||◌, Option, some, [], ◌∷◌, ◌++◌, ◌==◌,
  arith, eq_iff, Bool-cases, Option-cases, any_row,
}
use nubilo.Store.{Db, Collection, or_empty, is_null, sql_eq}
use nubilo.Store.Env.{Env}
use nubilo.Store.Tx.{Tx, ok, with_write, with_write-parts}
use nubilo.Sync.Access.{find_collection, root_of}
use nubilo.Sync.Collections.{insert_collection, none_if_empty, new_collection, create_collection}
use nubilo.Sync.Tree.Growth.{IsTree, Fits, append-IsTree}

pub with_write-IsTree :
    {A : Type 0} (m : Tx A) (db : Db)
    → ((r : A × Db) → m db ≡ ok r → IsTree r.1)
    → IsTree db
    → IsTree (with_write m db).1
with_write-IsTree m db keep h = elim (with_write-parts m db) [
  | inl (r, e, w) ↦ subst (λ x. IsTree x.1) (sym w) (keep r e)
  | inr (e, w) ↦ subst (λ x. IsTree x.1) (sym w) h
]

insert_rows :
    (c : Collection) (db : Db) (r : Collection × Db)
    → insert_collection c db ≡ ok r
    → (r.1.collections ≡ db.collections ++ c ∷ [])
      × (any_row (λ (x : Collection). x.id == c.id) db.collections ≡ false)
unfolding insert_collection
insert_rows c db r h = ground (arith, h)

insert-IsTree :
    (c : Collection) (db : Db)
    → (any_row (λ (x : Collection). x.id == c.id) db.collections ≡ false → Fits db c)
    → IsTree db
    → IsTree (with_write (insert_collection c) db).1
insert-IsTree c db fits tree =
    with_write-IsTree (insert_collection c) db
      (λ r e.
        let (rows, fresh) = insert_rows c db r e in append-IsTree db r.1 c rows (fits fresh) tree)
      tree

owner_text : (s : String) → or_empty (none_if_empty s) ≡ s
owner_text s = elim (Bool-cases (s == "")) [
  | inl e ↦ ground (arith, e, eq_iff s "")
  | inr e ↦ ground (arith, e)
]

root_given : (c : Collection) (r : String) → c.root_id ≡ some r → root_of c ≡ r
unfolding root_of
root_given c r h = ground (arith, h)

child-Fits :
    (env : Env) (id : String) (now : ℕ) (kind name parent : String) (metadata : Option String)
    (db : Db) (p : Collection)
    → any_row (λ (x : Collection). sql_eq x.parent_id id) db.collections ≡ false
    → (parent == "") ≡ false
    → find_collection db parent ≡ some p
    → any_row (λ (x : Collection). x.id == id) db.collections ≡ false
    → Fits db
        (new_collection env id now kind name parent metadata (or_empty p.owner_user_id) (root_of p))
child-Fits env id now kind name parent metadata db p unnamed below e fresh = (
  fresh,
  unnamed,
  λ top. absurd (ground (arith, below, top)),
  λ t up.
      let same : parent ≡ t = ground (arith, below, up) in
      (
        p,
        subst (λ x. find_collection db x ≡ some p) same e,
        root_text,
        owner_text (or_empty p.owner_user_id),
      ),
)
  where
    root_text :
        root_of (
          new_collection env id now kind name parent metadata
            (or_empty p.owner_user_id)
            (root_of p))
        ≡ root_of p
    root_text = root_given _ (root_of p) refl

top-Fits :
    (env : Env) (id : String) (now : ℕ) (owner kind name parent : String) (metadata : Option String)
    (db : Db)
    → any_row (λ (x : Collection). sql_eq x.parent_id id) db.collections ≡ false
    → (parent == "") ≡ true
    → any_row (λ (x : Collection). x.id == id) db.collections ≡ false
    → Fits db (new_collection env id now kind name parent metadata owner id)
top-Fits env id now owner kind name parent metadata db unnamed top fresh =
    (fresh, unnamed, λ up. root_given _ id refl, λ t up. absurd (ground (arith, top, up)))

create_top :
    (env : Env) (id : String) (now : ℕ) (owner kind name parent : String) (metadata : Option String)
    (db : Db)
    → (kind == "" || name == "") ≡ false
    → (parent == "") ≡ true
    → create_collection env id now owner kind name parent metadata db
      ≡ with_write
          (insert_collection (new_collection env id now kind name parent metadata owner id))
          db
unfolding create_collection
create_top env id now owner kind name parent metadata db fine top =
    let row = new_collection env id now kind name parent metadata owner id in
    ground (arith, fine, top)

create_below :
    (env : Env) (id : String) (now : ℕ) (owner kind name parent : String) (metadata : Option String)
    (db : Db) (p : Collection)
    → (kind == "" || name == "") ≡ false
    → (parent == "") ≡ false
    → find_collection db parent ≡ some p
    → is_null p.deleted_at ≡ true
    → create_collection env id now owner kind name parent metadata db
      ≡ with_write
          (insert_collection (
            new_collection env id now kind name parent metadata
              (or_empty p.owner_user_id)
              (root_of p)))
          db
unfolding create_collection
create_below env id now owner kind name parent metadata db p fine below e live =
    ground (arith, fine, below, e, live)

pub create-IsTree :
    (env : Env) (id : String) (now : ℕ) (owner kind name parent : String) (metadata : Option String)
    (db : Db)
    → any_row (λ (x : Collection). sql_eq x.parent_id id) db.collections ≡ false
    → IsTree db
    → IsTree (create_collection env id now owner kind name parent metadata db).1
unfolding create_collection
create-IsTree env id now owner kind name parent metadata db unnamed tree =
    elim (Bool-cases (kind == "" || name == "")) [
      | inl refused ↦ rw (create_collection, refused) tree
      | inr fine ↦ elim (Bool-cases (parent == "")) [
        | inl top ↦
            let kept =
              insert-IsTree (new_collection env id now kind name parent metadata owner id) db
                (top-Fits env id now owner kind name parent metadata db unnamed top) tree in
            subst (λ x. IsTree x.1)
              (sym (create_top env id now owner kind name parent metadata db fine top)) kept
        | inr below ↦ elim (Option-cases (find_collection db parent)) [
          | inl e ↦ rw (create_collection, fine) (rw below (rw e tree))
          | inr (p, e) ↦ elim (Bool-cases (is_null p.deleted_at)) [
            | inr gone ↦ rw (create_collection, fine) (rw below (rw e (rw gone tree)))
            | inl live ↦
                let kept =
                  insert-IsTree
                    (new_collection env id now kind name parent metadata (or_empty p.owner_user_id)
                      (root_of p))
                    db (child-Fits env id now kind name parent metadata db p unnamed below e)
                    tree in
                subst (λ x. IsTree x.1)
                  (sym (
                    create_below env id now owner kind name parent metadata db p fine below e live))
                  kept
          ]
        ]
      ]
    ]
