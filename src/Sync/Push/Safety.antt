-- ===== src/Sync/Push/Safety.antt =====
-- What a refused item leaves alone, and which access an accepted item had.
use nubilo.Prelude.{ℕ, ◌≤◌, ◌≡◌, ◌≢◌, ap, inl, inr, String, true, false, some, arith}
use nubilo.Identity.Device.{Device}
use nubilo.Authz.{Access, access_write}
use nubilo.Store.{Db, Object, PushResult, Collection, or_empty, is_null}
use nubilo.Store.Env.{Env}
use nubilo.Store.Tx.{ok}
use nubilo.Sync.Access.{find_collection, access_for_q, mirror_read_only}
use nubilo.Sync.Types.{ChangeInput, passed, is_ok}
use nubilo.Sync.Push.{validate, check_target, check_move, is_create, apply_one, stale, find_object}
use nubilo.Sync.Push.Writes.{write_create_lem, write_update_lem, write_delete_lem}
use nubilo.Sync.Push.Outcome.{
  Outcome, refusing, conflicting, already_gone, creating, updating, deleting,
}
use nubilo.Sync.Push.Outcome.Reading.{apply_one_out}

module _ (env : Env) (dev : Device) (idem : String) (now : ℕ) (item : ChangeInput) (db : Db)
    (res : PushResult) (db' : Db) where
  refused_out :
      Outcome env dev idem now item db res db'
      → is_ok res.status ≡ false
      → db' ≡ record db { blob_refs = db'.blob_refs }
  refused_out (refusing msg r refs) s = refs.same
  refused_out (conflicting obj f r e) s = ground arith
  refused_out (already_gone obj f o g r e) s = ground arith
  refused_out (creating c sized cost mid t o f refs same q w) s =
      ground (arith, write_create_lem env dev idem now sized cost mid db' res w)
  refused_out (updating c obj sized cost mid t m o f l st refs same q w) s =
      ground (arith, write_update_lem env dev idem now sized cost obj mid db' res w)
  refused_out (deleting c obj t m o f l st w) s =
      ground (arith, write_delete_lem env dev idem now item obj db db' res w)

-- An item that is answered with an error or a conflict changes no table but the blob references: no
-- object, journal row, history row or reference count, whichever check it failed.
pub refused_keeps_tables :
    (env : Env) (dev : Device) (idem : String) (now : ℕ) (item : ChangeInput) (db : Db)
    (res : PushResult) (db' : Db)
    → apply_one env dev idem now item db ≡ ok (res, db')
    → is_ok res.status ≡ false
    → db' ≡ record db { blob_refs = db'.blob_refs }
refused_keeps_tables env dev idem now item db res db' h s =
    elim (apply_one_out env dev idem now item db res db' h) [
      | inl (msg, r, e) ↦ ground arith
      | inr (valid, v, out) ↦ refused_out env dev idem now valid db res db' out s
    ]

pub target_facts :
    (env : Env) (db : Db) (dev : Device) (item : ChangeInput) (c : Collection)
    → check_target env db dev item ≡ ok (passed c)
    → (acc : Access) × (find_collection db item.collection_id ≡ some c)
      × (is_null c.deleted_at ≡ true)
      × (access_for_q db (some dev) item.collection_id ≡ ok acc)
      × (access_write ≤ acc)
      × (mirror_read_only env db dev item.collection_id ≡ ok false)
unfolding check_target
target_facts env db dev item c h = ground arith

-- An item is valid only as itself, up to its metadata hash.
pub validate_same :
    (env : Env) (item valid : ChangeInput)
    → validate env item ≡ passed valid
    → (valid.object_id ≡ item.object_id)
      × (valid.collection_id ≡ item.collection_id)
      × (valid.op ≡ item.op)
      × (valid.base_revision ≡ item.base_revision)
      × (valid.force ≡ item.force)
      × (valid.metadata ≡ item.metadata)
      × (valid.blob_id ≡ item.blob_id)
unfolding validate
validate_same env item valid h = ground arith

-- What every item that writes has passed: the check of the target, and, if it is about an object that
-- is there, the check of the move and, unless it creates, the test of the revision.
pub record Admitted (env : Env) (dev : Device) (idem : String) (now : ℕ) (item : ChangeInput)
    (db : Db) : Type 0 where
  pub target : Collection
  pub passed_target : check_target env db dev item ≡ ok (passed target)
  pub moves :
      (obj : Object)
      → find_object db item.object_id ≡ some obj
      → (check_move env db dev item (some obj) (or_empty target.owner_user_id) ≡ ok (passed tt))
        × (is_create item.op ≡ false)
        × (is_null obj.deleted_at ≡ true)
        × (stale env dev idem now item obj ≡ false)

module _ (env : Env) (dev : Device) (idem : String) (now : ℕ) (item : ChangeInput) (db : Db)
    (res : PushResult) (db' : Db) where
  Admitted-out :
      Outcome env dev idem now item db res db'
      → db'.last_seq ≢ db.last_seq
      → Admitted env dev idem now item db
  Admitted-out (refusing msg r refs) ne = absurd (ne (ap (λ (d : Db). d.last_seq) refs.same))
  Admitted-out (conflicting obj f r e) ne = absurd (ne (ap (λ (d : Db). d.last_seq) e))
  Admitted-out (already_gone obj f o g r e) ne = absurd (ne (ap (λ (d : Db). d.last_seq) e))
  Admitted-out (creating c sized cost mid t o f refs same q w) ne = record {
    target = c;
    passed_target = t;
    moves = λ obj found. cc;
  }
  Admitted-out (updating c obj sized cost mid t m o f l st refs same q w) ne = record {
    target = c;
    passed_target = t;
    moves = λ other found. ground (arith, m, f, found, l, st, o);
  }
  Admitted-out (deleting c obj t m o f l st w) ne = record {
    target = c;
    passed_target = t;
    moves = λ other found. ground (arith, m, f, found, l, st, o);
  }

module _ (env : Env) (dev : Device) (idem : String) (now : ℕ) (item : ChangeInput) (db : Db)
    (res : PushResult) (db' : Db) where
  -- If an item is applied and the journal moves on, the item was admitted in the state before it.
  pub applied-Admitted :
      apply_one env dev idem now item db ≡ ok (res, db')
      → db'.last_seq ≢ db.last_seq
      → (valid : ChangeInput) × (validate env item ≡ passed valid)
        × Admitted env dev idem now valid db
  applied-Admitted h ne = elim (apply_one_out env dev idem now item db res db' h) [
    | inl (msg, r, e) ↦ absurd (ne (ap (λ (d : Db). d.last_seq) e))
    | inr (valid, v, out) ↦ (valid, v, Admitted-out env dev idem now valid db res db' out ne)
  ]
