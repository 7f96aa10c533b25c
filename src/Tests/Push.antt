-- ===== src/Tests/Push.antt =====
-- Witnesses of the push.
use nubilo.Prelude.{
  ◌≡◌, ◌≢◌, ◌⊎◌, ◌+◌, refl, String, Bool, true, List, [], ◌∷◌, find_row, any_row, select, update,
  arith, eq_iff,
}
use nubilo.Prelude.Int.{i64, ◌-ℤ◌, ◌+ℤ◌}
use nubilo.Store.{Db, Op, PushResult, Status, is_null}
use nubilo.Store.Tx.{ok}
use nubilo.Authz.{Access}
use nubilo.Sync.Types.{ChangeInput}
use nubilo.Sync.Access.{find_collection, access_for_q, mirror_read_only}
use nubilo.Sync.Quota.{charge, quota_allows}
use nubilo.Sync.Push.{
  apply_one, validate, check_target, check_move, after_validate, after_target, after_move, apply_op,
  apply_create, apply_update, apply_delete, create_new, create_existing, charged_create,
  charged_update, create_at_cost, update_at_cost, write_create, write_update, write_delete,
  update_blob, stale, u64, ensure_extra_blobs, new_extra_blobs, adjust_extra_blob_refs, find_object,
  default_hash, answer_existing, tolerate, check_source,
}
use nubilo.Sync.Push.Safety.{refused_keeps_tables}
use nubilo.Sync.Push.Journal.{Journaled, journal_describes}
use nubilo.Sync.Push.Revision.{write_checks_revision}
use nubilo.Sync.Push.Others.{IsOrdered, others_untouched}
use nubilo.Sync.Push.Batch.{
  push, after_load, after_write, push_tx, store_results, apply_all, load_idempotent, answer_race,
  scoped_key,
}
use nubilo.Sync.Push.Batch.Retried.{Pushing, pushes, push_idempotent}
use nubilo.Sync.Push.Batch.Keeps.{push-IsOrdered}
use nubilo.Store.Tx.{with_write}
use nubilo.Tests.World.{env, phone, world, note, change, returned}

-- Everything that a run of the push computes with.
unfoldable pub opened : Bool
unfolding apply_one validate check_target check_move after_validate after_target after_move apply_op
    apply_create apply_update apply_delete create_new create_existing charged_create charged_update
    create_at_cost update_at_cost write_create write_update write_delete update_blob stale
    ensure_extra_blobs new_extra_blobs adjust_extra_blob_refs find_object default_hash
    answer_existing tolerate check_source charge quota_allows access_for_q find_collection
    mirror_read_only find_row any_row select update i64 ◌-ℤ◌ ◌+ℤ◌ push after_load after_write
    push_tx store_results apply_all load_idempotent answer_race with_write scoped_key
opened = true

abbrev pub run : ChangeInput → PushResult × Db
run item = returned (apply_one env phone "k" 9 item world)

abbrev edit : ChangeInput
edit = change Op.update "note" "files" 3

edit_succeeds :
    ((run edit).0.status ≡ Status.ok) × ((run edit).0.revision ≡ 4) × ((run edit).0.seq ≡ 5)
unfolding opened
edit_succeeds = (refl, refl, refl)

-- A stale update is refused with a conflict.
abbrev stale_edit : ChangeInput
stale_edit = change Op.update "note" "files" 2

refused_keeps_tables_example :
    (run stale_edit).1 ≡ record world { blob_refs = (run stale_edit).1.blob_refs }
unfolding opened
refused_keeps_tables_example =
    refused_keeps_tables env phone "k" 9 stale_edit world (run stale_edit).0 (run stale_edit).1 refl
      refl

moved_on : (run edit).1.last_seq ≢ world.last_seq
unfolding opened
moved_on e = omega (arith, e)

-- A move of the note to another collection of its owner.
abbrev move : ChangeInput
move = change Op.update "note" "trash" 3

journal_describes_example : Journaled edit world (run edit).0 (run edit).1
unfolding opened
journal_describes_example =
    journal_describes env phone "k" 9 edit world (run edit).0 (run edit).1 refl moved_on

write_checks_revision_example :
    (is_null note.deleted_at ≡ true)
    × ((note.revision ≡ edit.base_revision) ⊎ (edit.force ≡ true))
    × ((run edit).0.revision ≡ u64 (note.revision + 1))
unfolding opened
write_checks_revision_example =
    write_checks_revision env phone "k" 9 edit world (run edit).0 (run edit).1 note refl moved_on
      refl

others_ne : ◌≢◌ {A = String} "other" "note"
others_ne e = ground (arith, eq_iff "other" "note")

others_untouched_example : find_object (run edit).1 "other" ≡ find_object world "other"
unfolding opened
others_untouched_example =
    others_untouched env phone "k" 9 edit world (run edit).0 (run edit).1 "other" refl others_ne

abbrev pushed : Db
pushed = (push env phone 9 "k" (edit ∷ []) world).1

-- Another push comes in between, of another key.
abbrev between : List Pushing
between = record { device = phone; now = 10; key = "l"; items = stale_edit ∷ [] } ∷ []

push_idempotent_example :
    push env phone 11 "k" (move ∷ stale_edit ∷ []) (pushes env between pushed)
    ≡ (ok ((run edit).0 ∷ []), pushes env between pushed)
unfolding opened
push_idempotent_example =
    push_idempotent env phone 9 11 "k" (edit ∷ []) (move ∷ stale_edit ∷ []) between world
      ((run edit).0 ∷ []) refl (omega arith) (omega arith)

push-IsOrdered_example : IsOrdered (push env phone 9 "k" (edit ∷ []) world).1
push-IsOrdered_example = push-IsOrdered env phone 9 "k" (edit ∷ []) world (omega arith)
