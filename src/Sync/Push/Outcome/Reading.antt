-- ===== src/Sync/Push/Outcome/Reading.antt =====
-- Reading the outcome of applyOne off the code, case by case.
use nubilo.Prelude.{ℕ, ◌≡◌, refl, ◌⊎◌, inl, inr, String, Option, none, some, arith, Bool-cases, ltb}
use nubilo.Identity.Device.{Device}
use nubilo.Store.{Db, Op, Object, PushResult, Collection, or_empty, is_null}
use nubilo.Store.Env.{Env}
use nubilo.Store.Tx.{Result, ok, err}
use nubilo.Sync.Types.{ChangeInput, Checked, refused, passed, refusal, conflict_with}
use nubilo.Authz.{Access, access_read}
use nubilo.Sync.Access.{access_for_q}
use nubilo.Sync.Push.{
  tolerate, stale, find_object, check_target, check_move, answer_existing, create_existing,
  apply_create, apply_update, apply_delete, apply_op, after_move, after_target, after_validate,
  apply_one, validate,
}
use nubilo.Sync.Push.Frame.{OnlyRefs-refl}
use nubilo.Sync.Push.Outcome.{Outcome, conflicting, already_gone, deleting}
use nubilo.Sync.Push.Outcome.Writing.{Out, owner, refuse_out, create_out, update_out}

module _ (env : Env) (dev : Device) (idem : String) (now : ℕ) (item : ChangeInput) (db : Db)
    (res : PushResult) (db' : Db) where
  module _ (c : Collection) (target : check_target env db dev item ≡ ok (passed c)) where
    conflict_out :
        (obj : Object)
        → find_object db item.object_id ≡ some obj
        → ◌≡◌ {A = Result (PushResult × Db)} (ok (conflict_with item obj, db)) (ok (res, db'))
        → Out env dev idem now item db res db'
    conflict_out obj found h = conflicting obj found (ground arith) (ground arith)

    existing_out :
        (obj : Object) (t : Result Access)
        → find_object db item.object_id ≡ some obj
        → answer_existing env dev idem now item obj t db ≡ ok (res, db')
        → Out env dev idem now item db res db'
    unfolding answer_existing
    existing_out obj (err e) found h = cc
    existing_out obj (ok acc) found h = elim (Bool-cases (ltb acc access_read)) [
      | inl low ↦
          refuse_out env dev idem now item db res db' item "object id in use" db refl
            (OnlyRefs-refl db) (rw low at h)
      | inr high ↦ conflict_out obj found (rw high at h)
    ]

    -- The cases of the switch, each with what the switch knows.
    op_out :
        (op : Op) (found : Option Object)
        → item.op ≡ op
        → find_object db item.object_id ≡ found
        → check_move env db dev item found (owner env dev idem now item db res db' c target)
          ≡ ok (passed tt)
        → apply_op env dev idem now
            (owner env dev idem now item db res db' c target)
            item
            op
            found
            db
          ≡ ok (res, db')
        → Out env dev idem now item db res db'
    unfolding apply_op apply_create apply_update apply_delete create_existing
    op_out Op.create none op found moves h =
        create_out env dev idem now item db res db' c target op found h
    op_out Op.create (some obj) op found moves h =
        existing_out obj (tolerate (access_for_q db (some dev) obj.collection_id)) found h
    op_out Op.update none op found moves h =
        refuse_out env dev idem now item db res db' item "not found" db refl (OnlyRefs-refl db) h
    op_out Op.update (some obj) op found moves h = elim (Bool-cases (is_null obj.deleted_at)) [
      | inr gone ↦ conflict_out obj found (rw gone at h)
      | inl live ↦ elim (Bool-cases (stale env dev idem now item obj)) [
        | inl old ↦ conflict_out obj found (rw (live, old) at h)
        | inr fresh ↦
            update_out env dev idem now item db res db' c target obj op found live fresh moves
              (rw (live, fresh) at h)
      ]
    ]
    op_out Op.delete none op found moves h =
        refuse_out env dev idem now item db res db' item "not found" db refl (OnlyRefs-refl db) h
    op_out Op.delete (some obj) op found moves h = elim (Bool-cases (is_null obj.deleted_at)) [
      | inr gone ↦
          let e = rw gone at h in already_gone obj found op gone (ground arith) (ground arith)
      | inl live ↦ elim (Bool-cases (stale env dev idem now item obj)) [
        | inl old ↦ conflict_out obj found (rw (live, old) at h)
        | inr fresh ↦ deleting c obj target moves op found live fresh (rw (live, fresh) at h)
      ]
    ]
    op_out (Op.other s) found op e moves h =
        refuse_out env dev idem now item db res db' item "" db refl (OnlyRefs-refl db) h

    move_out :
        (t : Result (Checked (Unit {0})))
        → check_move env db dev item
            (find_object db item.object_id)
            (owner env dev idem now item db res db' c target)
          ≡ t
        → after_move env dev idem now
            (owner env dev idem now item db res db' c target)
            item
            (find_object db item.object_id)
            t
            db
          ≡ ok (res, db')
        → Out env dev idem now item db res db'
    unfolding after_move
    move_out (err e) m h = cc
    move_out (ok (refused msg)) m h =
        refuse_out env dev idem now item db res db' item msg db refl (OnlyRefs-refl db) h
    move_out (ok (passed tt)) m h = op_out item.op (find_object db item.object_id) refl refl m h

  target_out :
      (t : Result (Checked Collection))
      → check_target env db dev item ≡ t
      → after_target env dev idem now item t db ≡ ok (res, db')
      → Out env dev idem now item db res db'
  unfolding after_target
  target_out (err e) m h = cc
  target_out (ok (refused msg)) m h =
      refuse_out env dev idem now item db res db' item msg db refl (OnlyRefs-refl db) h
  target_out (ok (passed c)) m h =
      move_out c m
        (check_move env db dev item (find_object db item.object_id) (or_empty c.owner_user_id)) refl
        h

-- Every way in which applyOne returns: the item is refused as invalid, and nothing is written; or it is
-- valid, and one of the outcomes holds of the valid item.
pub apply_one_out :
    (env : Env) (dev : Device) (idem : String) (now : ℕ) (item : ChangeInput) (db : Db)
    (res : PushResult) (db' : Db)
    → apply_one env dev idem now item db ≡ ok (res, db')
    → ((msg : String) × (res ≡ refusal item msg) × (db' ≡ db))
      ⊎ ((valid : ChangeInput) × (validate env item ≡ passed valid)
          × Outcome env dev idem now valid db res db')
unfolding apply_one after_validate
apply_one_out env dev idem now item db res db' h = go (validate env item) refl h
  where
    go :
        (t : Checked ChangeInput)
        → validate env item ≡ t
        → after_validate env dev idem now item t db ≡ ok (res, db')
        → ((msg : String) × (res ≡ refusal item msg) × (db' ≡ db))
          ⊎ ((valid : ChangeInput) × (validate env item ≡ passed valid)
              × Outcome env dev idem now valid db res db')
    go (refused msg) e k = inl (msg, ground arith, ground arith)
    go (passed valid) e k = inr (
      valid,
      e,
      target_out env dev idem now valid db res db' (check_target env db dev valid) refl k,
    )
