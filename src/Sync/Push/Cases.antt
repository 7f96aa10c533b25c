-- ===== src/Sync/Push/Cases.antt =====
-- The switch of applyOne, and applyOne itself (internal/syncengine/engine.go). `now` is the time that
-- NowMS returns during the item. A revision is a uint64, which wraps.
use nubilo.Prelude.{
  ℕ, ◌+◌, ◌%◌, String, Bool, not, ◌&&◌, Option, none, some, [], ◌∷◌, ◌++◌, ◌==◌, ltb, nat_eq,
  update, if◌then◌else◌,
}
use nubilo.Prelude.Int.{ℤ, ◌-ℤ◌, i64}
use nubilo.Identity.Device.{Device}
use nubilo.Authz.{Access, access_read}
use nubilo.Store.{Op, Object, PushResult, Collection, History, or_empty, is_null}
use nubilo.Store.Env.{Env}
use nubilo.Store.Tx.{Tx, Result, ok, err, pure, ◌>>=◌, ◌>>◌}
use nubilo.Store.Blobs.{Counting, continue, on_blobs, metadata_blob_ids, inc_blob_ref, dec_blob_ref}
use nubilo.Sync.Access.{access_for_q}
use nubilo.Sync.Quota.{charge, quota_allows}
use nubilo.Sync.Types.{ChangeInput, Checked, refused, passed, meta, conflict_with, success, refuse}
use nubilo.Sync.Push.Steps.{
  Step, skip, attempt, ensure_blob, ensure_extra_blobs, new_extra_blobs, adjust_extra_blob_refs,
  find_object, insert_journal, insert_history, hash_mismatch,
}
use nubilo.Sync.Push.Checks.{validate, check_target, tolerate, check_move}

abbrev pub u64 : ℕ → ℕ
u64 n = n % 18446744073709551616

abbrev nonempty : String → String → String
nonempty s d = if s == "" then d else s

module _ (env : Env) (dev : Device) (idem : String) (now : ℕ) where
  unfoldable pub history_row : ChangeInput → ℕ → History
  history_row item rev = record {
    object_id = item.object_id;
    revision = rev;
    content_hash = item.content_hash;
    metadata_hash = item.metadata_hash;
    blob_id = item.blob_id;
    device_id = dev.id;
    ts = now;
  }

  unfoldable pub journal_row : ChangeInput → ℕ → Tx ℕ
  unfolding insert_journal
  journal_row item rev =
      insert_journal item.object_id item.collection_id item.op rev item.content_hash
        item.metadata_hash dev.id now idem

  unfoldable pub new_object : ChangeInput → ℤ → Object
  new_object item charged = record {
    id = item.object_id;
    collection_id = item.collection_id;
    kind = nonempty item.kind "file";
    revision = 1;
    content_hash = item.content_hash;
    metadata_hash = item.metadata_hash;
    blob_id = item.blob_id;
    size = item.size;
    charged = charged;
    origin_device = dev.id;
    metadata = meta item;
    created_at = now;
    updated_at = now;
    deleted_at = none;
  }

  unfoldable pub insert_object : Object → Tx (Unit {0})
  insert_object o db = ok (tt, record db { objects = db.objects ++ o ∷ [] })

  -- The writes of a create. No row has the id: the case was entered on ErrNotFound.
  unfoldable pub write_create : ChangeInput → ℤ → Tx PushResult
  unfolding new_object insert_object inc_blob_ref journal_row history_row insert_history
  write_create item charged = do
    insert_object (new_object item charged)
    on_blobs (inc_blob_ref item.blob_id)
    on_blobs (adjust_extra_blob_refs env "" (meta item))
    seq ← journal_row item 1
    insert_history (history_row item 1)
    pure (success item 1 seq)

  -- The cost and the quota, and then the writes.
  unfoldable pub create_at_cost : String → ChangeInput → Checked (ChangeInput × ℤ) → Tx PushResult
  create_at_cost owner item (refused msg) db = refuse item msg db
  create_at_cost owner item (passed (sized, cost)) db =
      if quota_allows db owner cost
      then write_create sized cost db
      else refuse item "quota exceeded" db

  unfoldable pub charged_create : String → ChangeInput → Tx PushResult
  charged_create owner item db = create_at_cost owner item (charge env db item) db

  -- ContentHash of an object without a blob defaults to the hash of nothing.
  unfoldable pub default_hash : ChangeInput → ChangeInput
  default_hash item =
      if item.blob_id == "" && item.content_hash == ""
      then record item { content_hash = env.sha256_hex "" }
      else item

  unfoldable pub create_new : String → ChangeInput → Tx PushResult
  create_new owner item =
      attempt
        (if item.blob_id == ""
          then skip
          else ensure_blob env dev owner item.blob_id item.content_hash)
        (refuse item)
        (attempt (ensure_extra_blobs env dev owner (metadata_blob_ids env (meta item)))
          (refuse item) (charged_create owner (default_hash item)))

  -- An id in use: a conflict, with no word of an object that the caller cannot read.
  unfoldable pub answer_existing : ChangeInput → Object → Result Access → Tx PushResult
  answer_existing item obj (err e) db = err e
  answer_existing item obj (ok acc) db =
      if ltb acc access_read
      then refuse item "object id in use" db
      else ok (conflict_with item obj, db)

  unfoldable pub create_existing : ChangeInput → Object → Tx PushResult
  create_existing item obj db =
      answer_existing item obj (tolerate (access_for_q db (some dev) obj.collection_id)) db

  unfoldable pub apply_create : String → ChangeInput → Option Object → Tx PushResult
  apply_create owner item none = create_new owner item
  apply_create owner item (some obj) = create_existing item obj

  unfoldable pub updated : ChangeInput → ℤ → ℕ → Object → Object
  updated item charged rev o = record o {
    collection_id = item.collection_id;
    revision = rev;
    content_hash = item.content_hash;
    metadata_hash = item.metadata_hash;
    blob_id = item.blob_id;
    size = item.size;
    charged = charged;
    origin_device = dev.id;
    metadata = meta item;
    updated_at = now;
  }

  unfoldable pub update_object : String → (Object → Object) → Tx (Unit {0})
  update_object id f db =
      ok (tt, record db { objects = update (λ (o : Object). o.id == id) f db.objects })

  unfoldable pub swap_blob : String → String → Counting
  unfolding inc_blob_ref dec_blob_ref
  swap_blob old new blobs =
      if old == new then ok blobs else continue (inc_blob_ref new) (dec_blob_ref old blobs)

  unfoldable pub write_update : ChangeInput → ℤ → Object → Tx PushResult
  unfolding updated update_object swap_blob journal_row history_row insert_history
  write_update item charged obj = do
    let rev = u64 (obj.revision + 1)
    update_object item.object_id (updated item charged rev)
    on_blobs (swap_blob obj.blob_id item.blob_id)
    on_blobs (adjust_extra_blob_refs env obj.metadata (meta item))
    seq ← journal_row item rev
    insert_history (history_row item rev)
    pure (success item rev seq)

  unfoldable pub update_at_cost :
      String → ChangeInput → Object → Checked (ChangeInput × ℤ) → Tx PushResult
  update_at_cost owner item obj (refused msg) db = refuse item msg db
  update_at_cost owner item obj (passed (sized, cost)) db =
      if quota_allows db owner (i64 (cost -ℤ obj.charged))
      then write_update sized cost obj db
      else refuse item "quota exceeded" db

  unfoldable pub charged_update : String → ChangeInput → Object → Tx PushResult
  charged_update owner item obj db = update_at_cost owner item obj (charge env db item) db

  -- The blob of an update: a new one is checked as in a create; an old one must agree with the hash.
  unfoldable pub update_blob : String → ChangeInput → Object → Step
  update_blob owner item obj =
      if not (item.blob_id == "") && not (item.blob_id == obj.blob_id)
      then ensure_blob env dev owner item.blob_id item.content_hash
      else if not (item.blob_id == "")
          && not (item.content_hash == "")
          && not (item.content_hash == item.blob_id)
      then (λ db. (some hash_mismatch, db))
      else skip

  unfoldable pub stale : ChangeInput → Object → Bool
  stale item obj = not (nat_eq obj.revision item.base_revision) && not item.force

  unfoldable pub apply_update : String → ChangeInput → Option Object → Tx PushResult
  apply_update owner item none = refuse item "not found"
  apply_update owner item (some obj) =
      if not (is_null obj.deleted_at)
      then pure (conflict_with item obj)
      else if stale item obj
      then pure (conflict_with item obj)
      else attempt (update_blob owner item obj) (refuse item) (
          attempt (ensure_extra_blobs env dev owner (new_extra_blobs env obj.metadata (meta item)))
            (refuse item) (charged_update owner item obj))

  unfoldable pub tombstoned : ℕ → Object → Object
  tombstoned rev o = record o {
    revision = rev;
    deleted_at = some now;
    updated_at = now;
    origin_device = dev.id;
  }

  unfoldable pub write_delete : ChangeInput → Object → Tx PushResult
  unfolding tombstoned update_object dec_blob_ref insert_journal
  write_delete item obj = do
    let rev = u64 (obj.revision + 1)
    update_object item.object_id (tombstoned rev)
    on_blobs (dec_blob_ref obj.blob_id)
    on_blobs (adjust_extra_blob_refs env obj.metadata "")
    seq ←
        insert_journal item.object_id item.collection_id Op.delete rev obj.content_hash
          obj.metadata_hash dev.id now idem
    pure (success item rev seq)

  unfoldable pub apply_delete : ChangeInput → Option Object → Tx PushResult
  apply_delete item none = refuse item "not found"
  apply_delete item (some obj) =
      if not (is_null obj.deleted_at)
      then pure (success item obj.revision 0)
      else if stale item obj
      then pure (conflict_with item obj)
      else write_delete item obj

  -- The switch on in.Op.
  unfoldable pub apply_op : String → ChangeInput → Op → Option Object → Tx PushResult
  apply_op owner item Op.create found = apply_create owner item found
  apply_op owner item Op.update found = apply_update owner item found
  apply_op owner item Op.delete found = apply_delete item found
  apply_op owner item (Op.other s) found = refuse item ""

  -- The switch, if the check of a move passes.
  unfoldable pub after_move :
      String → ChangeInput → Option Object → Result (Checked (Unit {0})) → Tx PushResult
  after_move owner item found (err e) db = err e
  after_move owner item found (ok (refused msg)) db = refuse item msg db
  after_move owner item found (ok (passed u)) db = apply_op owner item item.op found db

  -- The rest, if the check of the target collection passes.
  unfoldable pub after_target : ChangeInput → Result (Checked Collection) → Tx PushResult
  after_target item (err e) db = err e
  after_target item (ok (refused msg)) db = refuse item msg db
  after_target item (ok (passed c)) db =
      let owner = or_empty c.owner_user_id in
      let found = find_object db item.object_id in
      after_move owner item found (check_move env db dev item found owner) db

  -- The rest, if the item is valid.
  unfoldable pub after_validate : ChangeInput → Checked ChangeInput → Tx PushResult
  after_validate item (refused msg) db = refuse item msg db
  after_validate item (passed valid) db = after_target valid (check_target env db dev valid) db

  unfoldable pub apply_one : ChangeInput → Tx PushResult
  apply_one item db = after_validate item (validate env item) db
