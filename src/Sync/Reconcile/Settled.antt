-- ===== src/Sync/Reconcile/Settled.antt =====
-- What an answer of Reconcile without a report says (internal/syncengine/engine.go).
use nubilo.Prelude.{
  ℕ, ◌≡◌, refl, sym, ap, ◌∙◌, subst, String, true, Option, none, some, List, [], ◌∷◌, ◌==◌, arith,
  inl, inr, eq_iff, Bool-cases, find_row, any_row, any_row-find_row, select, ◌≤◌,
}
use nubilo.Identity.Device.{Device}
use nubilo.Store.{Db, Object}
use nubilo.Store.Env.{Env}
use nubilo.Store.Tx.{Result, ok, err}
use nubilo.Authz.{Access, access_read}
use nubilo.Sync.Access.{access_for_q}
use nubilo.Sync.Push.{tolerate}
use nubilo.Sync.Reconcile.{
  nothing, answer, InventoryItem, ReconcileResult, server_rows, on_server, in_inventory, differs,
  compare, compare_all, missing_on_client, inventory_result, reconcile,
}

-- The revision and content hash under an id, on the server and in an inventory.
abbrev pub server_view : Option Object → Option (ℕ × String)
server_view none = none
server_view (some o) = some (o.revision, o.content_hash)

abbrev pub client_view : Option InventoryItem → Option (ℕ × String)
client_view none = none
client_view (some i) = some (i.revision, i.content_hash)

abbrev pub ReportsNothing : ReconcileResult → Type 0
ReportsNothing r = (r.missing_on_server ≡ []) × (r.mismatch ≡ []) × (r.missing_on_client ≡ [])

compare_quiet :
    (i : InventoryItem) (t : Option Object) (r : ReconcileResult)
    → ReportsNothing (compare i t r)
    → (server_view t ≡ client_view (some i)) × ReportsNothing r
unfolding compare differs
compare_quiet i none r h = absurd (ground (arith, h))
compare_quiet i (some o) r h = ground (arith, h, eq_iff o.content_hash i.content_hash)

compare_all_quiet :
    (rows : List Object) (inv : List InventoryItem) (r : ReconcileResult) (id : String)
    (i : InventoryItem)
    → ReportsNothing (compare_all rows inv r)
    → in_inventory inv id ≡ some i
    → server_view (on_server rows id) ≡ client_view (some i)
unfolding compare_all in_inventory find_row
compare_all_quiet rows [] r id i h f = absurd (ground arith)
compare_all_quiet rows (j ∷ inv) r id i h f =
    let (same, rest) = compare_quiet j (on_server rows j.id) (compare_all rows inv r) h in
    elim (Bool-cases (j.id == id)) [
      | inl is ↦
          (let key : j.id ≡ id = ground (arith, eq_iff j.id id) in
            let item : some j ≡ some i = ground arith in
            subst (λ k. server_view (on_server rows k) ≡ client_view (some j)) key same
            ∙ ap client_view item)
      | inr isnt ↦ compare_all_quiet rows inv r id i rest (ground arith)
    ]

compare-missing :
    (i : InventoryItem) (t : Option Object) (r : ReconcileResult)
    → (compare i t r).missing_on_client ≡ r.missing_on_client
unfolding compare
compare-missing i none r = refl
compare-missing i (some o) r = ground arith

compare_all-missing :
    (rows : List Object) (inv : List InventoryItem) (r : ReconcileResult)
    → (compare_all rows inv r).missing_on_client ≡ r.missing_on_client
unfolding compare_all compare
compare_all-missing rows [] r = refl
compare_all-missing rows (j ∷ inv) r =
    compare-missing j (on_server rows j.id) (compare_all rows inv r)
    ∙ compare_all-missing rows inv r

missing_none :
    (rows : List Object) (inv : List InventoryItem) (id : String) (o : Object)
    → missing_on_client rows inv ≡ []
    → on_server rows id ≡ some o
    → any_row (λ (i : InventoryItem). i.id == id) inv ≡ true
unfolding missing_on_client on_server find_row select
missing_none [] inv id o h f = absurd (ground arith)
missing_none (x ∷ rows) inv id o h f =
    let there = λ (k : String). any_row (λ (i : InventoryItem). i.id == k) inv in
    elim (Bool-cases (there x.id)) [
      | inr gone ↦ absurd (ground (arith, gone))
      | inl seen ↦ elim (Bool-cases (x.id == id)) [
        | inl is ↦
            let key : x.id ≡ id = ground (arith, eq_iff x.id id) in
            subst (λ k. there k ≡ true) key seen
        | inr isnt ↦ missing_none rows inv id o (ground (arith, seen)) (ground arith)
      ]
    ]

missing_row :
    (inv : List InventoryItem) (id : String)
    → any_row (λ (i : InventoryItem). i.id == id) inv ≡ true
    → in_inventory inv id ≡ none
    → ⊥
unfolding in_inventory
missing_row inv id a f = ground (arith, any_row-find_row (λ (i : InventoryItem). i.id == id) inv f)

settled_at :
    (rows : List Object) (inv : List InventoryItem) (id : String) (t : Option InventoryItem)
    (u : Option Object)
    → ReportsNothing (inventory_result rows inv)
    → in_inventory inv id ≡ t
    → on_server rows id ≡ u
    → server_view u ≡ client_view t
unfolding inventory_result
settled_at rows inv id (some i) u h f g =
    ap server_view (sym g)
    ∙ compare_all_quiet rows inv (record nothing { missing_on_client = missing_on_client rows inv })
        id i h f
settled_at rows inv id none none h f g = refl
settled_at rows inv id none (some o) h f g =
    let start = record nothing { missing_on_client = missing_on_client rows inv } in
    let none_missing = sym (compare_all-missing rows inv start) ∙ h.2 in
    absurd (missing_row inv id (missing_none rows inv id o none_missing g) f)

-- An answer of Reconcile that reports nothing says that the device holds what the server holds: under
-- every id, the inventory and the server's objects of the collection (tombstones included) have the
-- same revision and content hash, or neither has the id.
pub reconcile_settles :
    (env : Env) (db : Db) (dev : Device) (collection_id : String) (inv : List InventoryItem)
    (r : ReconcileResult) (id : String)
    → reconcile env db dev collection_id inv ≡ ok r
    → ReportsNothing r
    → server_view (on_server (server_rows db collection_id) id) ≡ client_view (in_inventory inv id)
unfolding reconcile
reconcile_settles env db dev collection_id inv r id h quiet =
    let rows = server_rows db collection_id in
    let told : inventory_result rows inv ≡ r = ground (arith, h) in
    settled_at rows inv id (in_inventory inv id) (on_server rows id)
      (subst ReportsNothing (sym told) quiet) refl refl

reader :
    (env : Env) (collection_id : String) (rows : List Object) (inv : List InventoryItem)
    (r : ReconcileResult) (t : Result Access)
    → answer env collection_id rows inv (tolerate t) ≡ ok r
    → (acc : Access) × (t ≡ ok acc) × (access_read ≤ acc)
unfolding tolerate answer
reader env collection_id rows inv r (ok acc) h = (acc, refl, ground arith)
reader env collection_id rows inv r (err e) h = absurd (ground arith)

-- Reconcile answers only a device that has read access or more to the collection.
pub reconcile_needs_access :
    (env : Env) (db : Db) (dev : Device) (collection_id : String) (inv : List InventoryItem)
    (r : ReconcileResult)
    → reconcile env db dev collection_id inv ≡ ok r
    → (acc : Access) × (access_for_q db (some dev) collection_id ≡ ok acc) × (access_read ≤ acc)
unfolding reconcile
reconcile_needs_access env db dev collection_id inv r h =
    reader env collection_id (server_rows db collection_id) inv r
      (access_for_q db (some dev) collection_id) h
