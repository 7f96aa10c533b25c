-- ===== src/Tests/Integrity.antt =====
-- Witnesses of the compaction of tombstones.
use nubilo.Prelude.{◌≡◌, refl, some, [], ◌∷◌, Every, find_row, select, any_row}
use nubilo.Identity.Device.{Device, default_permissions}
use nubilo.Store.{Db, Op}
use nubilo.Sync.Ack.{acked, find_cursor}
use nubilo.Sync.Push.{find_object}
use nubilo.Integrity.Compaction.{
  compact, min_sync_ack, min_loop, sync_devices, device_has_sync, compactable_tombstones, settled,
  rows_of, delete_tombstones, delete_tombstone,
}
use nubilo.Sync.Changes.{max_seq}
use nubilo.Integrity.Compaction.Laws.{unread, compact_keeps_unread, compact_keeps_live}
use nubilo.Tests.World.{entry_row, world, phone, laptop, note}

-- Two devices, and an object that was deleted and whose deletion both have acknowledged.
abbrev server : Db
server = record world {
  devices = phone ∷ laptop ∷ [];
  objects = note ∷ record note { id = "gone"; deleted_at = some 2 } ∷ [];
  journal = record (entry_row 1 4) { object_id = "gone"; op = Op.delete } ∷ world.journal;
  cursors =
      record { device_id = "phone"; last_ack_seq = 2; last_ack_at = 1 }
      ∷ record { device_id = "laptop"; last_ack_seq = 1; last_ack_at = 1 }
      ∷ [];
}

-- The tombstone and its journal row go.
tombstone_compacted :
    ((compact server).objects ≡ note ∷ []) × ((compact server).journal ≡ world.journal)
unfolding compact min_sync_ack min_loop sync_devices device_has_sync compactable_tombstones settled
    rows_of delete_tombstones delete_tombstone find_cursor find_row select any_row max_seq
    default_permissions
tombstone_compacted = (refl, refl)

compact_keeps_unread_example :
    Every
      (λ (d : Device).
        unread (acked server d.id) (compact server).journal
        ≡ unread (acked server d.id) server.journal)
      (sync_devices server)
compact_keeps_unread_example = compact_keeps_unread server

compact_keeps_live_example : find_object (compact server) "note" ≡ some note
unfolding find_object find_row
compact_keeps_live_example = compact_keeps_live server "note" note refl refl
