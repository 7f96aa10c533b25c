-- ===== src/Tests/Sharing.antt =====
-- Witnesses of shares, preferences, acknowledgements and reconciliation.
use nubilo.Prelude.{
  ℕ, ◌≡◌, ◌≢◌, ◌≤◌, refl, String, [], ◌∷◌, max, arith, any_row, find_row, select, update, upsert,
}
use nubilo.Prelude.Int.{pos}
use nubilo.Authz.{Access, access_none}
use nubilo.Store.Tx.{ok, with_write}
use nubilo.Sync.Access.{
  access_q, access_for_q, find_collection, row_access, user_active, find_user, best_share,
  share_match,
}
use nubilo.Sync.Ack.{ack, acked, ack_keeps_maximum}
use nubilo.Sync.Changes.{head_seq}
use nubilo.Sync.Reconcile.{
  InventoryItem, nothing, on_server, server_rows, in_inventory, reconcile, inventory_result, answer,
}
use nubilo.Sync.Reconcile.Settled.{server_view, client_view, reconcile_settles}
use nubilo.Sync.Share.{remove_share, set_share, share_refused, has_principal}
use nubilo.Sync.Share.Removal.{remove_share_lowers, remove_share_revokes}
use nubilo.Sync.Share.Granting.{granted, set_share_grants}
use nubilo.Sync.Prefs.{Pref, get_pref, set_pref, revised, get_pref-set_pref}
use nubilo.Tests.World.{env, world, phone, folder}

unfoldable pub computing : ℕ
unfolding head_seq find_row any_row select update upsert find_collection user_active find_user
    row_access access_q access_for_q best_share share_match reconcile answer inventory_result
    server_rows set_share share_refused has_principal with_write
computing = 0

ack_keeps_maximum_example :
    ((ack "phone" (pos 3) 9 world).0 ≡ ok tt)
    × (acked (ack "phone" (pos 3) 9 world).1 "phone" ≡ max 3 (acked world "phone"))
unfolding computing
ack_keeps_maximum_example = ack_keeps_maximum "phone" 3 9 world (omega arith)

abbrev inventory : InventoryItem
inventory = record { id = "note"; revision = 3; content_hash = "c3" }

reconcile_settles_example :
    server_view (on_server (server_rows world "files") "note")
    ≡ client_view (in_inventory (inventory ∷ []) "note")
unfolding computing
reconcile_settles_example =
    reconcile_settles env world phone "files" (inventory ∷ []) nothing "note" refl
      (refl, refl, refl)

remove_share_lowers_example :
    (acc : Access) × (access_q (remove_share "files" "user" "ben" 9 world).1 "ben" "files" ≡ ok acc)
    × (acc ≤ 2)
unfolding computing
remove_share_lowers_example = remove_share_lowers "files" "user" "ben" 9 world "ben" "files" 2 refl

anna_ben : ◌≢◌ {A = String} "anna" "ben"
anna_ben h = cc

ben_named : ◌≢◌ {A = String} "ben" ""
ben_named h = cc

remove_share_revokes_example :
    access_q (remove_share "files" "user" "ben" 9 world).1 "ben" "files" ≡ ok access_none
unfolding computing
remove_share_revokes_example =
    remove_share_revokes "files" "ben" 9 world (folder "files" "anna") refl refl anna_ben refl

set_share_grants_example :
    (acc : Access) × (access_q (set_share "trash" "user" "ben" "ro" "anna" 9 world).1 "ben" "trash"
      ≡ ok acc)
    × (granted "ro" ≤ acc)
unfolding computing
set_share_grants_example =
    set_share_grants "trash" "ben" "ro" "anna" 9 world (folder "trash" "anna") refl refl refl
      ben_named refl refl

abbrev red : Pref
red = record { color = "red"; order = pos 0 }

get_pref-set_pref_example :
    get_pref (set_pref "ben" "files" red world) "ben" "files"
    ≡ revised red (get_pref world "ben" "files")
get_pref-set_pref_example = get_pref-set_pref "ben" "files" red world
