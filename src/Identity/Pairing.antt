-- ===== src/Identity/Pairing.antt =====
-- Pairing: StartPairing and Begin of internal/identity/identity.go (Complete is in Identity/Completion). Argon2id and Ed25519 are
-- the functions of `Service`; the new id, code, salt and challenge are arguments. A session's attempts
-- fit an int64.
pub mod Change
pub mod Finish
pub mod Signed
pub mod Once
pub mod Attempts
use nubilo.Prelude.{
  ℕ, zero, suc, ◌+◌, String, Bool, true, false, not, ◌&&◌, ◌||◌, Option, none, some, List, [], ◌∷◌,
  ◌++◌, ◌==◌, nat_eq, bytes_eq, ltb, leb, length, any_row, find_row, select, update, if◌then◌else◌,
}
use nubilo.Identity.Device.{Device, Role, UserRole, UserStatus, Permissions, default_permissions}
use nubilo.Identity.Names.{sanitize_name}
use nubilo.Identity.Users.{Hook, resolve_user}
use nubilo.Store.{Db, User, PairingRow, or_empty, is_null}
use nubilo.Store.Env.{Env}
use nubilo.Store.Tx.{
  Tx, Result, Err, ok, err, not_found, unique, invalid_code, expired, too_many_tries,
  too_many_active, bad_signature, completed, bad_key, with_write,
}
use nubilo.Crypto.Codes.{normalize_pairing_code}

-- The limits that the configuration sets, and the two functions of other libraries.
pub record Service : Type 0 where
  pub ttl_ms : ℕ
  pub max_attempts : ℕ
  pub max_active : ℕ
  pub hash_secret : List ℕ → List ℕ → List ℕ
  pub verify_ed25519 : List ℕ → List ℕ → List ℕ → Bool

-- VerifySecret
unfoldable pub verify_secret : Service → List ℕ → List ℕ → List ℕ → Bool
verify_secret service secret salt hash = bytes_eq (service.hash_secret secret salt) hash

-- completed_at IS NULL AND expires_at > now
abbrev pub is_open : ℕ → PairingRow → Bool
is_open now r = is_null r.completed_at && ltb now r.expires_at

abbrev pub or_client : Role → Role
or_client (Role.other s) = if s == "" then Role.client else Role.other s
or_client r = r

unfoldable pub active_sessions : Db → ℕ → String → ℕ
active_sessions db now user_id = length (
    select (λ (r : PairingRow). is_open now r && or_empty r.user_id == user_id) db.pairing_sessions)

-- The INSERT; the session's id is its key.
unfoldable pub insert_session : PairingRow → Tx (Unit {0})
insert_session row db =
    if any_row (λ (r : PairingRow). r.id == row.id) db.pairing_sessions
    then err unique
    else ok (tt, record db { pairing_sessions = db.pairing_sessions ++ row ∷ [] })

abbrev pub new_session : Service → String → List ℕ → List ℕ → ℕ → Role → String → PairingRow
new_session service id code salt now role user_id = record {
  id = id;
  code_hash = service.hash_secret code salt;
  code_salt = salt;
  created_at = now;
  expires_at = now + service.ttl_ms;
  attempts = 0;
  completed_at = none;
  device_id = none;
  challenge = none;
  pending_pubkey = none;
  pending_name = none;
  pending_role = some (or_client role);
  user_id = some user_id;
}

unfoldable pub open_session :
    Service → String → List ℕ → List ℕ → ℕ → Role → Result User × Db → Result (Unit {0}) × Db
unfolding active_sessions insert_session with_write
open_session service id code salt now role (err e, db) = (err e, db)
open_session service id code salt now role (ok u, db) =
    if leb service.max_active (active_sessions db now u.id)
    then (err too_many_active, db)
    else with_write (insert_session (new_session service id code salt now role u.id)) db

-- `owner` is the id of the owner's row, where the owner is created.
unfoldable pub start_pairing :
    Env
    → Hook
    → Service
    → String
    → String
    → List ℕ
    → List ℕ
    → ℕ
    → String
    → Role
    → Db
    → Result (Unit {0}) × Db
unfolding resolve_user open_session
start_pairing env hook service owner id code salt now user_id role db =
    open_session service id code salt now role (resolve_user env hook owner now user_id db)

pub record BeginRequest : Type 0 where
  pub code : List ℕ
  pub name : String
  pub public_key : List ℕ

-- UPDATE pairing_sessions … WHERE id
abbrev pub update_session : String → (PairingRow → PairingRow) → Db → Db
update_session id f db = record db {
  pairing_sessions = update (λ (r : PairingRow). r.id == id) f db.pairing_sessions;
}

unfoldable pub find_session : Service → List ℕ → ℕ → Db → Option PairingRow
unfolding verify_secret
find_session service code now db =
    find_row
      (λ (r : PairingRow). is_open now r && verify_secret service code r.code_salt r.code_hash)
      db.pairing_sessions

-- found == nil, its expiry and its tries, and the UPDATE.
unfoldable pub take_attempt :
    Service → List ℕ → List ℕ → String → ℕ → Option PairingRow → Db → Result String × Db
take_attempt service challenge public_key name now none db = (err invalid_code, db)
take_attempt service challenge public_key name now (some r) db =
    if leb r.expires_at now
    then (err expired, db)
    else if leb service.max_attempts r.attempts
    then (err too_many_tries, db)
    else (
      ok r.id,
      update_session r.id
          (λ (x : PairingRow). record x {
            attempts = x.attempts + 1;
            challenge = some challenge;
            pending_pubkey = some public_key;
            pending_name = some name;
          })
          db,
    )

-- The id of the session, for the challenge.
unfoldable pub begin : Env → Service → List ℕ → ℕ → BeginRequest → Db → Result String × Db
unfolding normalize_pairing_code sanitize_name find_session take_attempt
begin env service challenge now req db =
    let code = normalize_pairing_code req.code in
    if not (nat_eq (length code) 10)
    then (err invalid_code, db)
    else elim (sanitize_name env req.name) [
      | err e ↦ (err e, db)
      | ok name ↦
          if not (nat_eq (length req.public_key) 32)
          then (err bad_key, db)
          else take_attempt service challenge req.public_key name now
              (find_session service code now db) db
    ]
