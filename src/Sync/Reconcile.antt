-- ===== src/Sync/Reconcile.antt =====
-- A device's inventory of a collection against the server's objects: Reconcile of
-- internal/syncengine/engine.go. The map of the server's rows is the select itself, as an object id
-- is a primary key; the order in which Go walks it is the table's here.
pub mod Settled
use nubilo.Prelude.{
  ℕ, ◌≡◌, refl, String, Bool, true, false, not, ◌&&◌, ◌||◌, Option, none, some, List, [], ◌∷◌, ◌==◌,
  arith, inl, inr, eq_iff, Bool-cases, ltb, nat_eq, find_row, any_row, any_row-find_row,
  find_row_passes, find_row-any_row, select, map, if◌then◌else◌,
}
use nubilo.Identity.Device.{Device}
use nubilo.Authz.{Access, access_read}
use nubilo.Store.{Db, Object}
use nubilo.Store.Env.{Env}
use nubilo.Store.Tx.{Result, ok, err, collection, authorization}
use nubilo.Sync.Access.{access_for_q}
use nubilo.Sync.Push.{tolerate}

pub record InventoryItem : Type 0 where
  pub id : String
  pub revision : ℕ
  pub content_hash : String

pub record Mismatch : Type 0 where
  pub id : String
  pub server_revision : ℕ
  pub server_content_hash : String

pub record ReconcileResult : Type 0 where
  pub missing_on_server : List String
  pub missing_on_client : List String
  pub mismatch : List Mismatch

abbrev pub nothing : ReconcileResult
nothing = record { missing_on_server = []; missing_on_client = []; mismatch = [] }

-- The objects of the collection, tombstones included.
unfoldable pub server_rows : Db → String → List Object
server_rows db collection_id = select (λ (o : Object). o.collection_id == collection_id) db.objects

unfoldable pub on_server : List Object → String → Option Object
on_server rows id = find_row (λ (o : Object). o.id == id) rows

unfoldable pub in_inventory : List InventoryItem → String → Option InventoryItem
in_inventory inv id = find_row (λ (i : InventoryItem). i.id == id) inv

unfoldable pub differs : InventoryItem → Object → Bool
differs i o = not (nat_eq o.revision i.revision) || not (o.content_hash == i.content_hash)

-- What one item of the inventory adds.
unfoldable pub compare : InventoryItem → Option Object → ReconcileResult → ReconcileResult
unfolding differs
compare i none r = record r { missing_on_server = i.id ∷ r.missing_on_server }
compare i (some o) r =
    if differs i o
    then record r {
      mismatch =
          record { id = i.id; server_revision = o.revision; server_content_hash = o.content_hash }
          ∷ r.mismatch;
    }
    else r

unfoldable pub compare_all : List Object → List InventoryItem → ReconcileResult → ReconcileResult
unfolding compare on_server
compare_all rows [] r = r
compare_all rows (i ∷ inv) r = compare i (on_server rows i.id) (compare_all rows inv r)

unfoldable pub missing_on_client : List Object → List InventoryItem → List String
missing_on_client rows inv =
    map (λ (o : Object). o.id)
      (select (λ (o : Object). not (any_row (λ (i : InventoryItem). i.id == o.id) inv)) rows)

-- The two loops, over the inventory and over the server's rows.
unfoldable pub inventory_result : List Object → List InventoryItem → ReconcileResult
unfolding compare_all missing_on_client
inventory_result rows inv =
    compare_all rows inv (record nothing { missing_on_client = missing_on_client rows inv })

-- The answer, once the access is known.
unfoldable pub answer :
    Env → String → List Object → List InventoryItem → Result Access → Result ReconcileResult
unfolding inventory_result
answer env collection_id rows inv t =
    if not (env.valid_id collection_id) then err collection else elim t [
      | err e ↦ err e
      | ok acc ↦ if ltb acc access_read then err authorization else ok (inventory_result rows inv)
    ]

unfoldable pub reconcile : Env → Db → Device → String → List InventoryItem → Result ReconcileResult
unfolding answer server_rows tolerate
reconcile env db dev collection_id inv =
    answer env collection_id (server_rows db collection_id) inv
      (tolerate (access_for_q db (some dev) collection_id))
