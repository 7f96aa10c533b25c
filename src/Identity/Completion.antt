-- ===== src/Identity/Completion.antt =====
-- Complete of internal/identity/identity.go: a pairing session becomes a device.
use nubilo.Prelude.{
  ℕ, ◌+◌, String, not, ◌||◌, Option, none, some, List, [], ◌∷◌, ◌++◌, ◌==◌, nat_eq, ltb, leb,
  length, any_row, find_row, if◌then◌else◌,
}
use nubilo.Identity.Device.{Device, Role, default_permissions}
use nubilo.Identity.Users.{Hook, resolve_user}
use nubilo.Store.{Db, User, PairingRow, or_empty, is_null}
use nubilo.Store.Env.{Env}
use nubilo.Store.Tx.{
  Tx, Result, Err, ok, err, not_found, unique, invalid_code, expired, too_many_tries, bad_signature,
  completed, with_write,
}
use nubilo.Identity.Pairing.{Service, or_client, update_session}

abbrev pub bytes_of : Option (List ℕ) → List ℕ
bytes_of none = []
bytes_of (some bs) = bs

-- Role(role.String), and RoleClient where it is empty.
abbrev pub pending_or_client : Option Role → Role
pending_or_client none = Role.client
pending_or_client (some r) = or_client r

abbrev pub paired_device : String → ℕ → PairingRow → User → Device
paired_device id now r u =
    let role = pending_or_client r.pending_role in
    record {
      id = id;
      name = or_empty r.pending_name;
      public_key = bytes_of r.pending_pubkey;
      role = role;
      permissions = default_permissions role;
      created_at = now;
      last_seen = some now;
      revoked_at = none;
      user_id = u.id;
      user_role = u.role;
      user_status = u.status;
    }

-- The INSERT of the device and the UPDATE of its session.
unfoldable pub insert_paired : String → ℕ → Device → Tx Device
insert_paired session now dev db =
    if any_row (λ (d : Device). d.id == dev.id) db.devices
    then err unique
    else ok (
      dev,
      update_session session
          (λ (r : PairingRow). record r {
            completed_at = some now;
            device_id = some dev.id;
            code_hash = [];
            challenge = none;
          })
          (record db { devices = db.devices ++ dev ∷ [] }),
    )

abbrev pub add_device : String → String → ℕ → PairingRow → Result User × Db → Result Device × Db
add_device session id now r (err e, db) = (err e, db)
add_device session id now r (ok u, db) =
    with_write (insert_paired session now (paired_device id now r u)) db

-- What Complete asks of the session before the signature.
unfoldable pub check_session : Service → ℕ → PairingRow → Option Err
check_session service now r =
    if not (is_null r.completed_at)
    then some completed
    else if leb r.expires_at now
    then some expired
    else if ltb service.max_attempts r.attempts
    then some too_many_tries
    else if nat_eq (length (bytes_of r.challenge)) 0
        || (nat_eq (length (bytes_of r.pending_pubkey)) 0 || is_null r.pending_name)
    then some invalid_code
    else none

-- A wrong signature counts as an attempt.
abbrev pub count_attempt : String → Db → Db
count_attempt session =
    update_session session (λ (x : PairingRow). record x { attempts = x.attempts + 1 })

unfoldable pub complete_found :
    Env
    → Hook
    → Service
    → String
    → String
    → String
    → ℕ
    → List ℕ
    → PairingRow
    → Db
    → Result Device × Db
unfolding check_session resolve_user insert_paired
complete_found env hook service session owner id now signature r db =
    let add =
      add_device session id now r (resolve_user env hook owner now (or_empty r.user_id) db) in
    elim (check_session service now r) [
      | some e ↦ (err e, db)
      | none ↦
          if not
            (service.verify_ed25519 (bytes_of r.pending_pubkey) (bytes_of r.challenge) signature)
          then (err bad_signature, count_attempt session db)
          else add
    ]

unfoldable pub complete :
    Env → Hook → Service → String → String → String → ℕ → List ℕ → Db → Result Device × Db
unfolding complete_found
complete env hook service session owner id now signature db =
    elim (find_row (λ (r : PairingRow). r.id == session) db.pairing_sessions) [
      | none ↦ (err not_found, db)
      | some r ↦ complete_found env hook service session owner id now signature r db
    ]
