-- ===== src/Sync/Push/Checks.antt =====
-- The checks of applyOne before its switch: ids, operation and metadata hash; the target collection
-- and the access to it; and, for a move, the source collection (internal/syncengine/engine.go).
use nubilo.Prelude.{
  String, Bool, true, false, not, ◌&&◌, ◌||◌, Option, none, some, ◌==◌, ltb, if◌then◌else◌,
}
use nubilo.Identity.Device.{Device}
use nubilo.Authz.{Access, access_none, access_write}
use nubilo.Store.{Db, Op, Collection, Object, or_empty, is_null}
use nubilo.Store.Env.{Env}
use nubilo.Store.Tx.{Result, Err, ok, err, not_found}
use nubilo.Sync.Access.{find_collection, access_for_q, mirror_read_only}
use nubilo.Sync.Types.{ChangeInput, Checked, refused, passed, meta}

abbrev pub is_known : Op → Bool
is_known (Op.other s) = false
is_known _ = true

abbrev pub is_delete : Op → Bool
is_delete Op.delete = true
is_delete _ = false

abbrev pub is_create : Op → Bool
is_create Op.create = true
is_create _ = false

-- Up to the metadata hash: the item with the hash that the server computed.
unfoldable pub validate : Env → ChangeInput → Checked ChangeInput
validate env item =
    if not (env.valid_id item.object_id) || not (env.valid_id item.collection_id)
    then refused "invalid id"
    else if not (is_known item.op)
    then refused "invalid op"
    else if is_delete item.op
    then passed item
    else (let want = env.sha256_hex (meta item) in
        if not (item.metadata_hash == "") && not (item.metadata_hash == want)
        then refused "metadata hash mismatch"
        else passed (record item { metadata_hash = want }))

-- The collection that the item writes to, live, with write access and no mirror in the way.
unfoldable pub check_target : Env → Db → Device → ChangeInput → Result (Checked Collection)
unfolding find_collection
check_target env db dev item = elim (find_collection db item.collection_id) [
  | none ↦ ok (refused "collection not found")
  | some c ↦
      if not (is_null c.deleted_at)
      then ok (refused "collection deleted")
      else elim (access_for_q db (some dev) item.collection_id) [
        | err e ↦ err e
        | ok acc ↦
            if ltb acc access_write
            then ok (refused "unauthorized")
            else elim (mirror_read_only env db dev item.collection_id) [
              | err e ↦ err e
              | ok read_only ↦ if read_only then ok (refused "read-only mirror") else ok (passed c)
            ]
      ]
]

abbrev is_not_found : Err → Bool
is_not_found not_found = true
is_not_found _ = false

-- `if aerr != nil && !errors.Is(aerr, ErrNotFound)`: a missing collection is no access.
unfoldable pub tolerate : Result Access → Result Access
tolerate (ok acc) = ok acc
tolerate (err e) = if is_not_found e then ok access_none else err e

abbrev owner_of : Option Collection → String
owner_of none = ""
owner_of (some c) = or_empty c.owner_user_id

-- The source of a move: write access there too, the same owner, and no mirror.
unfoldable pub check_source : Env → Db → Device → Object → String → Result (Checked (Unit {0}))
unfolding tolerate find_collection
check_source env db dev obj col_owner =
    elim (tolerate (access_for_q db (some dev) obj.collection_id)) [
      | err e ↦ err e
      | ok acc ↦
          if ltb acc access_write
            || not (owner_of (find_collection db obj.collection_id) == col_owner)
          then ok (refused "unauthorized")
          else elim (mirror_read_only env db dev obj.collection_id) [
            | err e ↦ err e
            | ok read_only ↦ if read_only then ok (refused "read-only mirror") else ok (passed tt)
          ]
    ]

-- An update or delete of an object that is in another collection.
unfoldable pub is_move : ChangeInput → Object → Bool
is_move item obj = not (is_create item.op) && not (obj.collection_id == item.collection_id)

unfoldable pub check_move :
    Env → Db → Device → ChangeInput → Option Object → String → Result (Checked (Unit {0}))
unfolding is_move
check_move env db dev item none col_owner = ok (passed tt)
check_move env db dev item (some obj) col_owner =
    if is_move item obj then check_source env db dev obj col_owner else ok (passed tt)
