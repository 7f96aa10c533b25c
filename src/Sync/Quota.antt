-- ===== src/Sync/Quota.antt =====
-- What an object costs its owner, and whether the owner's quota allows it:
-- internal/syncengine/quota.go. An int64 sum wraps (`i64`). The float that TOTAL returns is read as
-- the exact sum: its rounding above 2 ^ 53 bytes is not modelled.
pub mod Laws
use nubilo.Prelude.{
  ℕ, String, len, Bool, true, false, ◌&&◌, ◌||◌, none, some, List, [], ◌∷◌, ◌==◌, ltb, find_row,
  if◌then◌else◌,
}
use nubilo.Prelude.Int.{ℤ, pos, ◌+ℤ◌, ◌-ℤ◌, leb_ℤ, ltb_ℤ, i64, max_int64}
use nubilo.Store.{Db, Object, Blob, sql_eq, is_null}
use nubilo.Store.Env.{Env}
use nubilo.Store.Blobs.{contains, metadata_blob_ids}
use nubilo.Sync.Access.{find_user, find_collection}
use nubilo.Sync.Types.{ChangeInput, Checked, refused, passed, meta}

abbrev pub max_metadata_bytes : ℕ
max_metadata_bytes = 262144

unfoldable pub blob_size : Db → String → ℤ
blob_size db blob_id =
    if blob_id == ""
    then pos 0
    else elim (find_row (λ (b : Blob). b.id == blob_id) db.blobs) [ none ↦ pos 0 | some b ↦ b.size ]

-- The loop over the blobs that the metadata names.
unfoldable pub add_sizes : Db → List String → ℤ → List String → ℤ
unfolding blob_size contains
add_sizes db seen total [] = total
add_sizes db seen total (h ∷ rest) = elim (contains seen h) [
  | true ↦ add_sizes db seen total rest
  | false ↦ add_sizes db (h ∷ seen) (i64 (total +ℤ blob_size db h)) rest
]

-- charge: the item with its size made good, and the cost; or the push error.
unfoldable pub charge : Env → Db → ChangeInput → Checked (ChangeInput × ℤ)
unfolding blob_size add_sizes metadata_blob_ids
charge env db item =
    let total = λ (size : ℤ).
      add_sizes db (item.blob_id ∷ []) (i64 (size +ℤ pos (len (meta item))))
        (metadata_blob_ids env (meta item)) in
    if ltb max_metadata_bytes (len (meta item))
    then refused "metadata too large"
    else if item.blob_id == ""
    then (if ltb_ℤ item.size (pos 0) || ltb_ℤ env.max_blob item.size
        then refused "invalid size"
        else passed (item, total item.size))
    else (let n = blob_size db item.blob_id in passed (record item { size = n }, total n))

-- A live object of a live collection that `owner` holds.
unfoldable pub counts_for : Db → String → Object → Bool
unfolding find_collection
counts_for db owner o = is_null o.deleted_at && elim (find_collection db o.collection_id) [
  | none ↦ false
  | some c ↦ sql_eq c.owner_user_id owner && is_null c.deleted_at
]

unfoldable pub total_charged : Db → String → List Object → ℤ
unfolding counts_for
total_charged db owner [] = pos 0
total_charged db owner (o ∷ rest) =
    let others = total_charged db owner rest in
    if counts_for db owner o then o.charged +ℤ others else others

unfoldable pub owner_usage : Db → String → ℤ
unfolding total_charged
owner_usage db owner =
    let used = total_charged db owner db.objects in if leb_ℤ max_int64 used then max_int64 else used

unfoldable pub quota_allows : Db → String → ℤ → Bool
unfolding owner_usage find_user
quota_allows db owner delta =
    if owner == "" || leb_ℤ delta (pos 0) then true else elim (find_user db owner) [
      | none ↦ true
      | some u ↦
          if leb_ℤ u.quota_bytes (pos 0)
          then true
          else (let used = owner_usage db owner in
              leb_ℤ used u.quota_bytes && leb_ℤ delta (i64 (u.quota_bytes -ℤ used)))
    ]
