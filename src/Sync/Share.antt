-- ===== src/Sync/Share.antt =====
-- Granting and revoking access to a collection: SetShare, RemoveShare and touchCollectionTx of
-- internal/syncengine/access.go.
pub mod Laws
pub mod Removal
pub mod Granting
use nubilo.Prelude.{
  ℕ, ◌+◌, String, Bool, true, false, not, ◌&&◌, ◌||◌, Option, none, some, ◌==◌, find_row, any_row,
  select, update, upsert, if◌then◌else◌,
}
use nubilo.Store.{Db, User, Group, Collection, Share, or_empty, is_null}
use nubilo.Store.Tx.{Tx, Result, Err, ok, err, not_found, share, modify, with_write, ◌>>◌, ◌>>=◌}
use nubilo.Sync.Access.{find_collection}

-- The primary key of a share.
unfoldable pub share_key : String → String → String → Share → Bool
share_key collection_id principal_type principal_id s =
    s.collection_id == collection_id
    && (s.principal_type == principal_type && s.principal_id == principal_id)

unfoldable pub touched : ℕ → Collection → Collection
touched now c = record c { revision = c.revision + 1; updated_at = now }

unfoldable pub touch_collection : String → ℕ → Db → Db
unfolding touched
touch_collection id now db = record db {
  collections = update (λ (c : Collection). c.id == id) (touched now) db.collections;
}

-- SELECT COUNT(*) from users or groups.
unfoldable pub has_principal : Db → String → String → Bool
has_principal db principal_type principal_id =
    if principal_type == "group"
    then any_row (λ (g : Group). g.id == principal_id) db.groups
    else any_row (λ (u : User). u.id == principal_id) db.users

-- The checks before the write: none where they pass.
unfoldable pub share_refused : Db → String → String → String → String → Option Err
unfolding has_principal find_collection
share_refused db collection_id principal_type principal_id access =
    if not (principal_type == "user") && not (principal_type == "group")
    then some share
    else if not (access == "ro") && not (access == "rw")
    then some share
    else elim (find_collection db collection_id) [
      | none ↦ some not_found
      | some c ↦
          if not (is_null c.deleted_at) || not (or_empty c.parent_id == "")
          then some share
          else if principal_type == "user" && principal_id == or_empty c.owner_user_id
          then some share
          else if not (has_principal db principal_type principal_id)
          then some share
          else none
    ]

-- ON CONFLICT DO UPDATE SET access.
unfoldable pub upsert_share : Share → Db → Db
unfolding share_key
upsert_share s db = record db {
  shares =
      upsert (share_key s.collection_id s.principal_type s.principal_id)
        (λ (x : Share). record x { access = s.access }) s db.shares;
}

unfoldable pub set_share :
    String → String → String → String → String → ℕ → Db → Result (Unit {0}) × Db
unfolding share_refused upsert_share touch_collection with_write
set_share collection_id principal_type principal_id access created_by now db =
    elim (share_refused db collection_id principal_type principal_id access) [
      | some e ↦ (err e, db)
      | none ↦
          with_write
            (do
              modify (
                  upsert_share (record {
                    collection_id = collection_id;
                    principal_type = principal_type;
                    principal_id = principal_id;
                    access = access;
                    created_by = created_by;
                    created_at = now;
                  }))
              modify (touch_collection collection_id now))
            db
    ]

-- The collection is touched only where a share was there.
unfoldable pub remove_share : String → String → String → ℕ → Db → Result (Unit {0}) × Db
unfolding share_key touch_collection
remove_share collection_id principal_type principal_id now db =
    let key = share_key collection_id principal_type principal_id in
    let rest = record db { shares = select (λ (s : Share). not (key s)) db.shares } in
    (ok tt, if any_row key db.shares then touch_collection collection_id now rest else rest)
