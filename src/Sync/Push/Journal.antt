-- ===== src/Sync/Push/Journal.antt =====
-- What an accepted item leaves in the journal and in the objects (applyOne of
-- internal/syncengine/engine.go).
use nubilo.Prelude.{
  ℕ, ◌+◌, ◌≡◌, ◌≢◌, refl, ap, ◌∙◌, subst, inl, inr, String, none, some, [], ◌∷◌, ◌++◌, ◌==◌, arith,
  eq_refl, find_row, update, find_row-append, find_row-update_self,
}
use nubilo.Prelude.Int.{ℤ}
use nubilo.Identity.Device.{Device}
use nubilo.Store.{Db, Op, Object, Entry, PushResult, Status}
use nubilo.Store.Env.{Env}
use nubilo.Store.Tx.{ok}
use nubilo.Sync.Types.{ChangeInput}
use nubilo.Sync.Push.{
  write_create, write_update, write_delete, apply_one, u64, find_object, new_object, updated,
  tombstoned,
}
use nubilo.Sync.Push.Frame.{OnlyRefs}
use nubilo.Sync.Push.Writes.{entry_for, write_create_lem, write_update_lem, write_delete_lem}
use nubilo.Sync.Push.Outcome.{
  Outcome, Resized, refusing, conflicting, already_gone, creating, updating, deleting,
}
use nubilo.Sync.Push.Outcome.Reading.{apply_one_out}
use nubilo.Sync.Push.Safety.{validate_same}

-- The item's journal row, and the row of its object, after the item.
pub record Journaled (item : ChangeInput) (db : Db) (res : PushResult) (db' : Db) : Type 0 where
  pub entry : Entry
  pub row : Object
  pub appended : db'.journal ≡ db.journal ++ entry ∷ []
  pub next : entry.seq ≡ db.last_seq + 1
  pub counter : db'.last_seq ≡ entry.seq
  pub accepted : res.status ≡ Status.ok
  pub told_seq : res.seq ≡ entry.seq
  pub told_revision : res.revision ≡ entry.revision
  pub of_object : entry.object_id ≡ item.object_id
  pub in_collection : entry.collection_id ≡ item.collection_id
  pub found : find_object db' item.object_id ≡ some row
  pub row_revision : row.revision ≡ entry.revision
  pub row_content : row.content_hash ≡ entry.content_hash
  pub row_metadata : row.metadata_hash ≡ entry.metadata_hash

module _ (env : Env) (dev : Device) (idem : String) (now : ℕ) (item : ChangeInput) (db : Db)
    (res : PushResult) (db' : Db) where
  -- The object that a create adds is the one that its id finds.
  create_found :
      (sized : ChangeInput) (cost : ℤ)
      → find_object db item.object_id ≡ none
      → sized.object_id ≡ item.object_id
      → find_row
          (λ (o : Object). o.id == item.object_id)
          (db.objects ++ new_object env dev idem now sized cost ∷ [])
        ≡ some (new_object env dev idem now sized cost)
  unfolding find_object new_object
  create_found sized cost absent same =
      rw
        (find_row-append (λ (o : Object). o.id == item.object_id) db.objects
          (new_object env dev idem now sized cost) absent)
        (rw same (rw (eq_refl item.object_id)))

  create-Journaled :
      (sized : ChangeInput) (cost : ℤ) (mid : Db)
      → find_object db item.object_id ≡ none
      → OnlyRefs db mid
      → Resized item sized
      → write_create env dev idem now sized cost mid ≡ ok (res, db')
      → Journaled item db res db'
  unfolding find_object new_object
  create-Journaled sized cost mid absent refs same w =
      let (r, e) = write_create_lem env dev idem now sized cost mid db' res w in
      let key = λ (o : Object). o.id == item.object_id in
      let objs : db'.objects ≡ db.objects ++ new_object env dev idem now sized cost ∷ [] =
        ground (arith, e, refs.same) in
      record {
        entry =
            entry_for dev idem now sized sized.op 1 sized.content_hash sized.metadata_hash
              (mid.last_seq + 1);
        row = new_object env dev idem now sized cost;
        appended = ground (arith, e, refs.same);
        next = ground (arith, refs.same);
        counter = ground (arith, e);
        accepted = ground (arith, r);
        told_seq = ground (arith, r);
        told_revision = ground (arith, r);
        of_object = same.object_id;
        in_collection = same.collection_id;
        found = ap (find_row key) objs ∙ create_found sized cost absent same.object_id;
        row_revision = refl;
        row_content = refl;
        row_metadata = refl;
      }

  -- The object that an update or delete changes is found under its id with its changes.
  changed_found :
      (f : Object → Object) (obj : Object) (id : String)
      → id ≡ item.object_id
      → ((o : Object) → (f o).id ≡ o.id)
      → find_object db item.object_id ≡ some obj
      → find_row
          (λ (o : Object). o.id == item.object_id)
          (update (λ (o : Object). o.id == id) f db.objects)
        ≡ some (f obj)
  unfolding find_object
  changed_found f obj id same keep found =
      let key = λ (o : Object). o.id == item.object_id in
      rw same (
        find_row-update_self key f db.objects obj (λ o. ap (λ k. k == item.object_id) (keep o))
          found)

  update-Journaled :
      (obj : Object) (sized : ChangeInput) (cost : ℤ) (mid : Db)
      → find_object db item.object_id ≡ some obj
      → OnlyRefs db mid
      → Resized item sized
      → write_update env dev idem now sized cost obj mid ≡ ok (res, db')
      → Journaled item db res db'
  unfolding find_object updated
  update-Journaled obj sized cost mid there refs same w =
      let (r, e) = write_update_lem env dev idem now sized cost obj mid db' res w in
      let key = λ (o : Object). o.id == item.object_id in
      let rev = u64 (obj.revision + 1) in
      let change = updated env dev idem now sized cost rev in
      let objs : db'.objects ≡ update (λ (o : Object). o.id == sized.object_id) change db.objects =
        ground (arith, e, refs.same) in
      record {
        entry =
            entry_for dev idem now sized sized.op rev sized.content_hash sized.metadata_hash
              (mid.last_seq + 1);
        row = change obj;
        appended = ground (arith, e, refs.same);
        next = ground (arith, refs.same);
        counter = ground (arith, e);
        accepted = ground (arith, r);
        told_seq = ground (arith, r);
        told_revision = ground (arith, r);
        of_object = same.object_id;
        in_collection = same.collection_id;
        found =
            ap (find_row key) objs
            ∙ changed_found change obj sized.object_id same.object_id (λ o. refl) there;
        row_revision = refl;
        row_content = refl;
        row_metadata = refl;
      }

  delete-Journaled :
      (obj : Object)
      → find_object db item.object_id ≡ some obj
      → write_delete env dev idem now item obj db ≡ ok (res, db')
      → Journaled item db res db'
  unfolding find_object tombstoned
  delete-Journaled obj there w =
      let (r, e) = write_delete_lem env dev idem now item obj db db' res w in
      let key = λ (o : Object). o.id == item.object_id in
      let rev = u64 (obj.revision + 1) in
      let change = tombstoned env dev idem now rev in
      let objs : db'.objects ≡ update (λ (o : Object). o.id == item.object_id) change db.objects =
        ground (arith, e) in
      record {
        entry =
            entry_for dev idem now item Op.delete rev obj.content_hash obj.metadata_hash
              (db.last_seq + 1);
        row = change obj;
        appended = ground (arith, e);
        next = refl;
        counter = ground (arith, e);
        accepted = ground (arith, r);
        told_seq = ground (arith, r);
        told_revision = ground (arith, r);
        of_object = refl;
        in_collection = refl;
        found =
            ap (find_row key) objs ∙ changed_found change obj item.object_id refl (λ o. refl) there;
        row_revision = refl;
        row_content = refl;
        row_metadata = refl;
      }

  Journaled-out :
      Outcome env dev idem now item db res db'
      → db'.last_seq ≢ db.last_seq
      → Journaled item db res db'
  Journaled-out (refusing msg r refs) ne = absurd (ne (ap (λ (d : Db). d.last_seq) refs.same))
  Journaled-out (conflicting obj f r e) ne = absurd (ne (ap (λ (d : Db). d.last_seq) e))
  Journaled-out (already_gone obj f o g r e) ne = absurd (ne (ap (λ (d : Db). d.last_seq) e))
  Journaled-out (creating c sized cost mid t o f refs same q w) ne =
      create-Journaled sized cost mid f refs same w
  Journaled-out (updating c obj sized cost mid t m o f l st refs same q w) ne =
      update-Journaled obj sized cost mid f refs same w
  Journaled-out (deleting c obj t m o f l st w) ne = delete-Journaled obj f w

module _ (env : Env) (dev : Device) (idem : String) (now : ℕ) (item : ChangeInput) (db : Db)
    (res : PushResult) (db' : Db) where
  -- If the journal moves on, it has exactly one row more, with the next sequence number, which names
  -- the item's object and collection; the answer is ok and tells that number and the revision; and the
  -- object's row is found with that revision, content hash and metadata hash.
  pub journal_describes :
      apply_one env dev idem now item db ≡ ok (res, db')
      → db'.last_seq ≢ db.last_seq
      → Journaled item db res db'
  journal_describes h ne = elim (apply_one_out env dev idem now item db res db' h) [
    | inl (msg, r, e) ↦ absurd (ne (ap (λ (d : Db). d.last_seq) e))
    | inr (valid, v, out) ↦
        let same = validate_same env item valid v in
        let j = Journaled-out env dev idem now valid db res db' out ne in
        record {
          entry = j.entry;
          row = j.row;
          appended = j.appended;
          next = j.next;
          counter = j.counter;
          accepted = j.accepted;
          told_seq = j.told_seq;
          told_revision = j.told_revision;
          of_object = j.of_object ∙ same.0;
          in_collection = j.in_collection ∙ same.1;
          found = subst (λ k. find_object db' k ≡ some j.row) same.0 j.found;
          row_revision = j.row_revision;
          row_content = j.row_content;
          row_metadata = j.row_metadata;
        }
  ]
