-- ===== src/Sync/Collections.antt =====
-- Collections: CreateCollection and EnsureChildCollection of
-- internal/syncengine/engine.go, the operations of internal/syncengine/lookup.go that change a
-- collection.
use nubilo.Prelude.{
  ℕ, ◌+◌, String, Bool, true, false, not, ◌&&◌, ◌||◌, Option, none, some, [], ◌∷◌, ◌++◌, ◌==◌,
  any_row, find_row, select, update, if◌then◌else◌,
}
use nubilo.Store.{Db, Collection, Share, PrefRow, or_empty, coalesce, is_null, sql_eq}
use nubilo.Store.Env.{Env}
use nubilo.Store.Tx.{
  Tx, Result, ok, err, not_found, collection, collection_exists, unique, foreign_key, with_write,
  ◌>>◌, modify,
}
use nubilo.Sync.Access.{find_user, find_collection, root_of}

abbrev pub get_collection : Db → String → Result Collection
get_collection db id = elim (find_collection db id) [ none ↦ err not_found | some c ↦ ok c ]

-- The unique index collections_owner_name: among the live ones, and NULL differs from NULL.
unfoldable pub same_name : Option String → String → Option String → String → Collection → Bool
same_name none kind parent name c = false
same_name (some owner) kind parent name c =
    is_null c.deleted_at
    && (sql_eq c.owner_user_id owner
        && (c.kind == kind && (or_empty c.parent_id == or_empty parent && c.name == name)))

-- The owner's id is a foreign key.
unfoldable pub has_owner : Db → Option String → Bool
unfolding find_user
has_owner db none = true
has_owner db (some id) = not (is_null (find_user db id))

unfoldable pub insert_collection : Collection → Tx Collection
unfolding same_name has_owner
insert_collection c db =
    if any_row (λ (x : Collection). x.id == c.id) db.collections
    then err unique
    else if any_row (same_name c.owner_user_id c.kind c.parent_id c.name) db.collections
    then err collection_exists
    else if not (has_owner db c.owner_user_id)
    then err foreign_key
    else ok (c, record db { collections = db.collections ++ c ∷ [] })

abbrev pub none_if_empty : String → Option String
none_if_empty s = if s == "" then none else some s

-- The new row; nil metadata is "{}".
abbrev pub new_collection :
    Env → String → ℕ → String → String → String → Option String → String → String → Collection
new_collection env id now kind name parent metadata owner root =
    let text = coalesce metadata "{}" in
    record {
      id = id;
      kind = kind;
      name = name;
      parent_id = none_if_empty parent;
      revision = 1;
      metadata = text;
      metadata_hash = env.sha256_hex text;
      created_at = now;
      updated_at = now;
      deleted_at = none;
      owner_user_id = none_if_empty owner;
      root_id = some root;
    }

-- A child belongs to its parent's owner and shares its root.
unfoldable pub create_collection :
    Env
    → String
    → ℕ
    → String
    → String
    → String
    → String
    → Option String
    → Db
    → Result Collection × Db
unfolding find_collection root_of insert_collection
create_collection env id now owner kind name parent metadata db =
    if kind == "" || name == ""
    then (err collection, db)
    else if parent == ""
    then with_write
        (insert_collection (new_collection env id now kind name parent metadata owner id)) db
    else elim (find_collection db parent) [
      | none ↦ (err not_found, db)
      | some p ↦
          if not (is_null p.deleted_at)
          then (err not_found, db)
          else with_write
              (insert_collection (
                new_collection env id now kind name parent metadata (or_empty p.owner_user_id)
                  (root_of p)))
              db
    ]

-- The rows of ChildCollections.
unfoldable pub is_child : String → String → String → Collection → Bool
is_child owner kind parent c =
    c.kind == kind
    && (is_null c.deleted_at
        && (if not (parent == "")
            then sql_eq c.parent_id parent
            else is_null c.parent_id && (owner == "" || sql_eq c.owner_user_id owner)))

unfoldable pub find_child_collection : Db → String → String → String → String → Result Collection
unfolding is_child
find_child_collection db owner kind parent name =
    elim (find_row (λ (c : Collection). is_child owner kind parent c && c.name == name)
      db.collections) [ none ↦ err not_found | some c ↦ ok c ]

-- Another creator may have been faster.
abbrev pub child_after_race :
    String → String → String → String → Result Collection × Db → Result Collection × Db
child_after_race owner kind parent name (ok c, db) = (ok c, db)
child_after_race owner kind parent name (err collection_exists, db) =
    (find_child_collection db owner kind parent name, db)
child_after_race owner kind parent name (err e, db) = (err e, db)

unfoldable pub ensure_child_collection :
    Env → String → ℕ → String → String → String → String → Db → Result Collection × Db
unfolding find_child_collection create_collection
ensure_child_collection env id now owner kind parent name db =
    let made =
      child_after_race owner kind parent name
        (create_collection env id now owner kind name parent none db) in
    elim (find_child_collection db owner kind parent name) [ ok c ↦ (ok c, db) | err e ↦ made ]

abbrev pub live_at : String → Collection → Bool
live_at id c = c.id == id && is_null c.deleted_at

-- UPDATE collections … WHERE id AND deleted_at IS NULL, and ErrNotFound where no row is affected.
unfoldable pub update_collection : String → (Collection → Collection) → Tx (Unit {0})
update_collection id f db =
    if any_row (live_at id) db.collections
    then ok (tt, record db { collections = update (live_at id) f db.collections })
    else err not_found

unfoldable pub rename_collection : String → String → ℕ → Db → Result (Unit {0}) × Db
unfolding update_collection
rename_collection id name now db =
    if name == "" then (err collection, db) else elim (find_collection db id) [
      | none ↦ (err not_found, db)
      | some c ↦
          if any_row
              (λ (x : Collection).
                not (x.id == id) && same_name c.owner_user_id c.kind c.parent_id name x)
              db.collections
            && is_null c.deleted_at
          then (err collection_exists, db)
          else with_write
              (update_collection id (λ (x : Collection). record x {
                name = name;
                updated_at = now;
                revision = x.revision + 1;
              }))
              db
    ]

unfoldable pub tombstone_collection_tx : String → ℕ → Tx (Unit {0})
unfolding update_collection
tombstone_collection_tx id now = do
  update_collection id (λ (x : Collection). record x {
    deleted_at = some now;
    updated_at = now;
    revision = x.revision + 1;
  })
  modify (λ db. record db {
    shares = select (λ (s : Share). not (s.collection_id == id)) db.shares;
    prefs = select (λ (p : PrefRow). not (p.collection_id == id)) db.prefs;
  })

unfoldable pub tombstone_collection : String → ℕ → Db → Result (Unit {0}) × Db
unfolding tombstone_collection_tx with_write
tombstone_collection id now db = with_write (tombstone_collection_tx id now) db
