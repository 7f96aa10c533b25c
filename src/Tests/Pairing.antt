-- ===== src/Tests/Pairing.antt =====
-- Witnesses of pairing: a session is opened with a code, tried with it and completed.
use nubilo.Prelude.{
  ℕ, ◌≡◌, ◌≢◌, ◌≤◌, ◌<◌, refl, true, none, some, List, [], ◌∷◌, ◌++◌, length, any_row, find_row,
  update, select, order_by,
}
use nubilo.Identity.Device.{Device, Role, UserRole, default_permissions}
use nubilo.Store.{Db, PairingRow}
use nubilo.Store.Tx.{err, completed, with_write}
use nubilo.Crypto.Codes.{normalize_pairing_code, normal_byte, is_separator}
use nubilo.Identity.Names.{sanitize_name, has_nul}
use nubilo.Identity.Users.{resolve_user}
use nubilo.Sync.Access.{find_user}
use nubilo.Identity.Pairing.{
  Service, start_pairing, open_session, active_sessions, insert_session, begin, find_session,
  verify_secret, take_attempt,
}
use nubilo.Identity.Completion.{
  complete, complete_found, check_session, insert_paired, bytes_of, pending_or_client,
}
use nubilo.Identity.Pairing.Change.{has_id}
use nubilo.Identity.Pairing.Once.{done, paired_once}
use nubilo.Identity.Pairing.Signed.{complete_signed}
use nubilo.Tests.World.{env, world, phone}
use nubilo.Tests.Auth.{zeros}
use nubilo.Tests.Users.{no_hook}

abbrev service : Service
service = record {
  ttl_ms = 300000;
  max_attempts = 5;
  max_active = 3;
  hash_secret = λ secret salt. secret ++ salt;
  verify_ed25519 = λ key message signature. true;
}

abbrev code : List ℕ
code = 48 ∷ 49 ∷ 50 ∷ 51 ∷ 52 ∷ 53 ∷ 54 ∷ 55 ∷ 56 ∷ 57 ∷ []

abbrev opened : Db
opened =
    (start_pairing env no_hook service "owner-id" "session" code (7 ∷ []) 100 "anna" Role.client
      world).1

abbrev tried : Db
tried =
    (begin env service (9 ∷ []) 200 (record { code = code; name = "phone"; public_key = zeros 32 })
      opened).1

abbrev paired : Device
paired = record phone {
  id = "device";
  name = "phone";
  public_key = zeros 32;
  role = Role.client;
  permissions = default_permissions Role.client;
  created_at = 300;
  last_seen = some 300;
  user_role = UserRole.admin;
}

abbrev finished_db : Db
finished_db = (complete env no_hook service "session" "x" "device" 300 [] tried).1

unfoldable pub pairing : ℕ
unfolding start_pairing open_session active_sessions insert_session begin find_session verify_secret
    take_attempt complete complete_found check_session insert_paired resolve_user find_user
    normalize_pairing_code normal_byte is_separator sanitize_name has_nul with_write any_row
    find_row update select order_by
pairing = 0

complete_signed_example :
    (r : PairingRow) × (rest : List Device) × (find_row (has_id "session") tried.pairing_sessions
      ≡ some r)
    × (r.completed_at ≡ none)
    × (300 < r.expires_at)
    × (r.attempts ≤ 5)
    × (length (bytes_of r.challenge) ≢ 0)
    × (service.verify_ed25519 paired.public_key (bytes_of r.challenge) [] ≡ true)
    × (paired.id ≡ "device")
    × (paired.role ≡ pending_or_client r.pending_role)
    × (paired.permissions ≡ default_permissions paired.role)
    × (finished_db.devices ≡ rest ++ paired ∷ [])
unfolding pairing
complete_signed_example =
    complete_signed env no_hook service "session" "x" "device" 300 [] tried paired refl

paired_once_example :
    complete env no_hook service "session" "x" "other" 400 [] finished_db
    ≡ (err completed, finished_db)
unfolding pairing
paired_once_example =
    paired_once env no_hook service "session" "x" "device" 300 [] tried finished_db paired
      (λ u db. refl) refl done "x" "other" 400 []
