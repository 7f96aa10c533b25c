-- ===== src/Sync/Push/Revision.antt =====
-- The revision that an accepted item has to give (applyOne of internal/syncengine/engine.go).
use nubilo.Prelude.{ℕ, ◌+◌, ◌≡◌, ◌≢◌, sym, ap, subst, ◌⊎◌, inl, inr, String, true, some, arith}
use nubilo.Identity.Device.{Device}
use nubilo.Store.{Db, Object, PushResult, is_null}
use nubilo.Store.Env.{Env}
use nubilo.Store.Tx.{ok}
use nubilo.Sync.Types.{ChangeInput}
use nubilo.Sync.Push.{apply_one, u64, stale, find_object}
use nubilo.Sync.Push.Writes.{write_update_lem, write_delete_lem}
use nubilo.Sync.Push.Outcome.{
  Outcome, refusing, conflicting, already_gone, creating, updating, deleting,
}
use nubilo.Sync.Push.Outcome.Reading.{apply_one_out}
use nubilo.Sync.Push.Safety.{validate_same}

module _ (env : Env) (dev : Device) (idem : String) (now : ℕ) (item : ChangeInput) (db : Db)
    (res : PushResult) (db' : Db) where
  revised_out :
      (obj : Object)
      → Outcome env dev idem now item db res db'
      → db'.last_seq ≢ db.last_seq
      → find_object db item.object_id ≡ some obj
      → (is_null obj.deleted_at ≡ true)
        × ((obj.revision ≡ item.base_revision) ⊎ (item.force ≡ true))
        × (res.revision ≡ u64 (obj.revision + 1))
  unfolding stale
  revised_out obj (refusing msg r refs) ne found =
      absurd (ne (ap (λ (d : Db). d.last_seq) refs.same))
  revised_out obj (conflicting o f r e) ne found = absurd (ne (ap (λ (d : Db). d.last_seq) e))
  revised_out obj (already_gone o f p g r e) ne found = absurd (ne (ap (λ (d : Db). d.last_seq) e))
  revised_out obj (creating c sized cost mid t o f refs same q w) ne found = cc
  revised_out obj (updating c o sized cost mid t m op f l st refs same q w) ne found =
      let (r, e) = write_update_lem env dev idem now sized cost o mid db' res w in
      ground (arith, r, f, found, l, st)
  revised_out obj (deleting c o t m op f l st w) ne found =
      let (r, e) = write_delete_lem env dev idem now item o db db' res w in
      ground (arith, r, f, found, l, st)

module _ (env : Env) (dev : Device) (idem : String) (now : ℕ) (item : ChangeInput) (db : Db)
    (res : PushResult) (db' : Db) where
  -- Optimistic concurrency: if the journal moves on for an object that was there, its row was live, the
  -- item gave its current revision or forced the write, and the answer's revision is the next one (as
  -- a uint64).
  pub write_checks_revision :
      (obj : Object)
      → apply_one env dev idem now item db ≡ ok (res, db')
      → db'.last_seq ≢ db.last_seq
      → find_object db item.object_id ≡ some obj
      → (is_null obj.deleted_at ≡ true)
        × ((obj.revision ≡ item.base_revision) ⊎ (item.force ≡ true))
        × (res.revision ≡ u64 (obj.revision + 1))
  write_checks_revision obj h ne found = elim (apply_one_out env dev idem now item db res db' h) [
    | inl (msg, r, e) ↦ absurd (ne (ap (λ (d : Db). d.last_seq) e))
    | inr (valid, v, out) ↦
        let same = validate_same env item valid v in
        let there = subst (λ k. find_object db k ≡ some obj) (sym same.0) found in
        let (live, fresh, rev) = revised_out env dev idem now valid db res db' obj out ne there in
        (live, ground (arith, same, fresh), rev)
  ]
