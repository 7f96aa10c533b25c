-- ===== src/Sync/Push/Outcome.antt =====
-- What a call of applyOne that returns can have done: one constructor for each way out, with the facts
-- that hold there. The properties of a push are read off from it.
pub mod Writing
pub mod Reading
use nubilo.Prelude.{
  ℕ, ◌+◌, ◌≡◌, refl, subst, ◌⊎◌, inl, inr, String, Bool, true, false, Option, none, some, List, [],
  ◌∷◌, ◌++◌, ◌==◌, arith, Bool-cases, ltb, update, if◌then◌else◌,
}
use nubilo.Prelude.Int.{ℤ, ◌-ℤ◌, i64}
use nubilo.Identity.Device.{Device}
use nubilo.Store.{Db, Op, Object, Entry, PushResult, Collection, Status, or_empty, is_null}
use nubilo.Store.Env.{Env}
use nubilo.Store.Tx.{Tx, Result, ok, err}
use nubilo.Store.Blobs.{metadata_blob_ids, inc_blob_ref, dec_blob_ref}
use nubilo.Sync.Quota.{charge, quota_allows}
use nubilo.Sync.Types.{
  ChangeInput, Checked, refused, passed, meta, refusal, conflict_with, success, refuse,
}
use nubilo.Authz.{Access, access_read}
use nubilo.Sync.Access.{access_for_q}
use nubilo.Sync.Push.{
  tolerate, Step, skip, attempt, ensure_blob, ensure_extra_blobs, new_extra_blobs, update_blob, u64,
  new_object, updated, tombstoned, stale, default_hash, find_object, check_target, check_move,
  write_create, write_update, write_delete, history_row, create_at_cost, charged_create, create_new,
  answer_existing, create_existing, apply_create, update_at_cost, charged_update, apply_update,
  apply_delete, apply_op, after_move, after_target, after_validate, apply_one, validate,
  insert_journal, insert_history, adjust_extra_blob_refs, swap_blob,
}
use nubilo.Sync.Push.Frame.{
  OnlyRefs, OnlyRefs-refl, OnlyRefs-trans, create_blob-OnlyRefs, ensure_extra_blobs-OnlyRefs,
  update_blob-OnlyRefs, attempt_cases,
}

-- The same item, up to its size and its hashes.
pub record Resized (a b : ChangeInput) : Type 0 where
  pub object_id : b.object_id ≡ a.object_id
  pub collection_id : b.collection_id ≡ a.collection_id
  pub op : b.op ≡ a.op
  pub metadata : b.metadata ≡ a.metadata
  pub blob_id : b.blob_id ≡ a.blob_id

pub charge-Resized :
    (env : Env) (db : Db) (item sized : ChangeInput) (cost : ℤ)
    → charge env db item ≡ passed (sized, cost)
    → Resized item sized
unfolding charge
charge-Resized env db item sized cost h = ground arith

pub data Outcome (env : Env) (dev : Device) (idem : String) (now : ℕ) (item : ChangeInput) (db : Db)
    (res : PushResult) (db' : Db) : Type 0 where
  refusing :
      (msg : String)
      → res ≡ refusal item msg
      → OnlyRefs db db'
      → Outcome env dev idem now item db res db'
  conflicting :
      (obj : Object)
      → find_object db item.object_id ≡ some obj
      → res ≡ conflict_with item obj
      → db' ≡ db
      → Outcome env dev idem now item db res db'
  already_gone :
      (obj : Object)
      → find_object db item.object_id ≡ some obj
      → item.op ≡ Op.delete
      → is_null obj.deleted_at ≡ false
      → res ≡ success item obj.revision 0
      → db' ≡ db
      → Outcome env dev idem now item db res db'
  creating :
      (c : Collection) (sized : ChangeInput) (cost : ℤ) (mid : Db)
      → check_target env db dev item ≡ ok (passed c)
      → item.op ≡ Op.create
      → find_object db item.object_id ≡ none
      → OnlyRefs db mid
      → Resized item sized
      → quota_allows mid (or_empty c.owner_user_id) cost ≡ true
      → write_create env dev idem now sized cost mid ≡ ok (res, db')
      → Outcome env dev idem now item db res db'
  updating :
      (c : Collection) (obj : Object) (sized : ChangeInput) (cost : ℤ) (mid : Db)
      → check_target env db dev item ≡ ok (passed c)
      → check_move env db dev item (some obj) (or_empty c.owner_user_id) ≡ ok (passed tt)
      → item.op ≡ Op.update
      → find_object db item.object_id ≡ some obj
      → is_null obj.deleted_at ≡ true
      → stale env dev idem now item obj ≡ false
      → OnlyRefs db mid
      → Resized item sized
      → quota_allows mid (or_empty c.owner_user_id) (i64 (cost -ℤ obj.charged)) ≡ true
      → write_update env dev idem now sized cost obj mid ≡ ok (res, db')
      → Outcome env dev idem now item db res db'
  deleting :
      (c : Collection) (obj : Object)
      → check_target env db dev item ≡ ok (passed c)
      → check_move env db dev item (some obj) (or_empty c.owner_user_id) ≡ ok (passed tt)
      → item.op ≡ Op.delete
      → find_object db item.object_id ≡ some obj
      → is_null obj.deleted_at ≡ true
      → stale env dev idem now item obj ≡ false
      → write_delete env dev idem now item obj db ≡ ok (res, db')
      → Outcome env dev idem now item db res db'
