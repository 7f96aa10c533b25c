-- ===== src/Sync/Push/Writes.antt =====
-- What the writes of an accepted item leave in the tables.
use nubilo.Prelude.{ℕ, ◌+◌, ◌≡◌, String, [], ◌∷◌, ◌++◌, ◌==◌, arith, update}
use nubilo.Prelude.Int.{ℤ}
use nubilo.Identity.Device.{Device}
use nubilo.Store.{Db, Op, Object, Entry, PushResult}
use nubilo.Store.Env.{Env}
use nubilo.Store.Tx.{ok}
use nubilo.Sync.Types.{ChangeInput, success}
use nubilo.Sync.Push.{
  u64, new_object, updated, tombstoned, write_create, write_update, write_delete, history_row,
}

-- The journal row of an accepted item.
abbrev pub entry_for : Device → String → ℕ → ChangeInput → Op → ℕ → String → String → ℕ → Entry
entry_for dev idem now item op rev ch mh seq = record {
  seq = seq;
  object_id = item.object_id;
  collection_id = item.collection_id;
  op = op;
  revision = rev;
  content_hash = ch;
  metadata_hash = mh;
  device_id = dev.id;
  ts = now;
  idempotency_key = idem;
}

module _ (env : Env) (dev : Device) (idem : String) (now : ℕ) where
  -- A create that is written: the object, its journal row and its history row are added.
  pub write_create_lem :
      (item : ChangeInput) (cost : ℤ) (db db' : Db) (res : PushResult)
      → write_create env dev idem now item cost db ≡ ok (res, db')
      → (res ≡ success item 1 (db.last_seq + 1))
        × (db' ≡ record db {
          objects = db.objects ++ new_object env dev idem now item cost ∷ [];
          journal =
              db.journal
              ++ entry_for dev idem now item item.op 1 item.content_hash item.metadata_hash
                  (db.last_seq + 1)
                ∷ [];
          last_seq = db.last_seq + 1;
          history = db.history ++ history_row env dev idem now item 1 ∷ [];
          blobs = db'.blobs;
        })
  unfolding write_create
  write_create_lem item cost db db' res h = ground arith

  -- An update that is written: the row of the object changes, and journal and history grow by a row.
  pub write_update_lem :
      (item : ChangeInput) (cost : ℤ) (obj : Object) (db db' : Db) (res : PushResult)
      → write_update env dev idem now item cost obj db ≡ ok (res, db')
      → let rev = u64 (obj.revision + 1) in
        (res ≡ success item rev (db.last_seq + 1))
        × (db' ≡ record db {
          objects =
              update
                (λ (o : Object). o.id == item.object_id)
                (updated env dev idem now item cost rev)
                db.objects;
          journal =
              db.journal
              ++ entry_for dev idem now item item.op rev item.content_hash item.metadata_hash
                  (db.last_seq + 1)
                ∷ [];
          last_seq = db.last_seq + 1;
          history = db.history ++ history_row env dev idem now item rev ∷ [];
          blobs = db'.blobs;
        })
  unfolding write_update
  write_update_lem item cost obj db db' res h = ground arith

  -- A delete that is written: the row of the object becomes a tombstone, and the journal grows by a row.
  pub write_delete_lem :
      (item : ChangeInput) (obj : Object) (db db' : Db) (res : PushResult)
      → write_delete env dev idem now item obj db ≡ ok (res, db')
      → let rev = u64 (obj.revision + 1) in
        (res ≡ success item rev (db.last_seq + 1))
        × (db' ≡ record db {
          objects =
              update
                (λ (o : Object). o.id == item.object_id)
                (tombstoned env dev idem now rev)
                db.objects;
          journal =
              db.journal
              ++ entry_for dev idem now item Op.delete rev obj.content_hash obj.metadata_hash
                  (db.last_seq + 1)
                ∷ [];
          last_seq = db.last_seq + 1;
          blobs = db'.blobs;
        })
  unfolding write_delete
  write_delete_lem item obj db db' res h = ground arith
