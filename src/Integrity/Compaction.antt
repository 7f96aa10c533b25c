-- ===== src/Integrity/Compaction.antt =====
-- The compaction of tombstones: minSyncAck, deviceHasSync, compactableTombstones and deleteTombstones
-- of internal/integrity/gc.go. The permissions of a device are its decoded ones. Collect reads before
-- it opens the transaction that deletes; here no push stands between the two.
pub mod Laws
use nubilo.Prelude.{
  ℕ, String, Bool, true, false, not, ◌&&◌, ◌||◌, Option, none, some, List, [], ◌∷◌, ◌==◌, ltb, leb,
  any_row, select, map, if◌then◌else◌,
}
use nubilo.Identity.Device.{Device}
use nubilo.Store.{Db, Object, Entry, History, is_null}
use nubilo.Sync.Ack.{acked}
use nubilo.Sync.Changes.{max_seq, head_seq}

unfoldable pub device_has_sync : Device → Bool
device_has_sync d = elim d.permissions.protocols [
  | [] ↦ true
  | ◌∷◌ p ps ↦ any_row (λ (x : String). x == "sync" || x == "*") (p ∷ ps)
]

-- The devices that are not revoked and sync.
unfoldable pub sync_devices : Db → List Device
unfolding device_has_sync
sync_devices db = select (λ (d : Device). is_null d.revoked_at && device_has_sync d) db.devices

-- The loop over the devices; none before the first. A device without a cursor has acknowledged 0.
unfoldable pub min_loop : Db → Option ℕ → List Device → Option ℕ
min_loop db acc [] = acc
min_loop db none (d ∷ ds) = min_loop db (some (acked db d.id)) ds
min_loop db (some m) (d ∷ ds) =
    min_loop db (some (if ltb (acked db d.id) m then acked db d.id else m)) ds

abbrev pub or_head : ℕ → Option ℕ → ℕ
or_head head none = head
or_head head (some m) = m

-- With no such device, the head.
unfoldable pub min_sync_ack : Db → ℕ
unfolding min_loop sync_devices
min_sync_ack db = or_head (head_seq db) (min_loop db none (sync_devices db))

unfoldable pub rows_of : List Entry → String → List Entry
rows_of es id = select (λ (e : Entry). e.object_id == id) es

abbrev not_empty : List Entry → Bool
not_empty [] = false
not_empty (e ∷ es) = true

-- MAX(seq) of the object's journal rows is not NULL and not past the acknowledged one.
unfoldable pub settled : Db → ℕ → String → Bool
unfolding rows_of
settled db min_ack id =
    not_empty (rows_of db.journal id) && leb (max_seq (rows_of db.journal id)) min_ack

unfoldable pub compactable_tombstones : Db → ℕ → List String
unfolding settled
compactable_tombstones db min_ack =
    map (λ (o : Object). o.id)
      (select (λ (o : Object). not (is_null o.deleted_at) && settled db min_ack o.id) db.objects)

unfoldable pub delete_tombstone : String → Db → Db
delete_tombstone id db = record db {
  journal = select (λ (e : Entry). not (e.object_id == id)) db.journal;
  history = select (λ (h : History). not (h.object_id == id)) db.history;
  objects = select (λ (o : Object). not (o.id == id && not (is_null o.deleted_at))) db.objects;
}

unfoldable pub delete_tombstones : List String → Db → Db
unfolding delete_tombstone
delete_tombstones [] db = db
delete_tombstones (id ∷ ids) db = delete_tombstones ids (delete_tombstone id db)

-- Collect with apply, for the tombstones.
unfoldable pub compact : Db → Db
unfolding min_sync_ack compactable_tombstones delete_tombstones
compact db = delete_tombstones (compactable_tombstones db (min_sync_ack db)) db
