-- ===== src/Auth/Request.antt =====
-- AuthenticateRequest and adminDevice of internal/auth/auth.go, and the device that a signed request
-- looks up (Get of internal/identity/identity.go). ed25519.Verify and reading the body are not the
-- program's: `signed` says whether the canonical message verifies under a public key, `body` whether
-- the body was read. The time that Touch stores at the end is not modelled. The clock is read twice: `now` for the window, `later` after the body.
use nubilo.Prelude.{
  ℕ, String, Bool, true, false, not, Option, none, some, List, [], ◌∷◌, ◌==◌, nat_eq, bytes_eq,
  length, find_row, if◌then◌else◌,
}
use nubilo.Prelude.Int.{ℤ, pos, ◌-ℤ◌, ltb_ℤ, i64}
use nubilo.Identity.Device.{Device, Role, UserRole, UserStatus, revoked, default_permissions}
use nubilo.Store.{Db, User}
use nubilo.Sync.Access.{find_user}
use nubilo.Auth.Nonces.{
  AuthErr, Authenticator, skew, not_found, no_key, body, signature, admin_token, consume_nonce,
}

pub record Header : Type 0 where
  pub device_id : String
  pub ts : ℤ
  pub nonce : String

pub record Request : Type 0 where
  pub header : Header
  pub now : ℕ
  pub later : ℕ
  pub has_body : Bool
  pub signed : List ℕ → Bool

pub data Answer : Type 0 where
  accepted : Device → Answer
  rejected : AuthErr → Answer

abbrev pub is_accepted : Answer → Bool
is_accepted (accepted d) = true
is_accepted (rejected e) = false

-- The join of deviceSelect with the user's row.
unfoldable pub joined : Option User → Device → Device
joined none d = record d { user_role = UserRole.other ""; user_status = UserStatus.other "" }
joined (some u) d = record d { user_role = u.role; user_status = u.status }

unfoldable pub get_device : Db → String → Option Device
unfolding joined
get_device db id = elim (find_row (λ (d : Device). d.id == id) db.devices) [
  | none ↦ none
  | some d ↦ some (joined (find_user db d.user_id) d)
]

-- SkewMS <= 0 is a minute.
unfoldable pub with_skew : Authenticator → Authenticator
with_skew a = if nat_eq a.skew_ms 0 then record a { skew_ms = 60000 } else a

-- delta := now - ts, negated where it is negative, as int64.
unfoldable pub outside_window : ℕ → ℤ → ℕ → Bool
outside_window now ts skew_ms =
    let delta = i64 (pos now -ℤ ts) in
    let size = if ltb_ℤ delta (pos 0) then i64 (pos 0 -ℤ delta) else delta in
    ltb_ℤ (pos skew_ms) size

abbrev pub answer_nonce : Device → Option AuthErr × Authenticator → Answer × Authenticator
answer_nonce d (none, a) = (accepted d, a)
answer_nonce d (some e, a) = (rejected e, a)

unfoldable pub check_device : Request → Option Device → Authenticator → Answer × Authenticator
unfolding revoked
check_device req none a = (rejected not_found, a)
check_device req (some d) a =
    let answer =
      answer_nonce d
        (consume_nonce req.later req.header.device_id req.header.nonce req.header.ts a) in
    if revoked d
    then (rejected AuthErr.revoked, a)
    else if not (nat_eq (length d.public_key) 32)
    then (rejected no_key, a)
    else if not req.has_body
    then (rejected body, a)
    else if not (req.signed d.public_key)
    then (rejected signature, a)
    else answer

unfoldable pub authenticate_signed : Db → Request → Authenticator → Answer × Authenticator
unfolding with_skew outside_window get_device
authenticate_signed db req a =
    let b = with_skew a in
    if outside_window req.now req.header.ts b.skew_ms
    then (rejected skew, b)
    else check_device req (get_device db req.header.device_id) b

-- What adminDevice returns.
abbrev pub local_admin : Device
local_admin = record {
  id = "admin-local";
  name = "local-admin";
  public_key = [];
  role = Role.admin;
  permissions = default_permissions Role.admin;
  created_at = 0;
  last_seen = none;
  revoked_at = none;
  user_id = "";
  user_role = UserRole.other "";
  user_status = UserStatus.other "";
}

-- `admin_device` and `authenticate` take the header X-Nubilo-Admin as its bytes. The server's admin token, SHA-256, and whether the request comes from a loopback address.
pub record AdminCheck : Type 0 where
  pub admin_tok : List ℕ
  pub sha256 : List ℕ → List ℕ
  pub loopback : Bool

unfoldable pub admin_device : AdminCheck → List ℕ → Answer
admin_device check tok =
    if nat_eq (length check.admin_tok) 0
    then rejected admin_token
    else if not check.loopback
    then rejected admin_token
    else if not (bytes_eq (check.sha256 tok) (check.sha256 check.admin_tok))
    then rejected admin_token
    else accepted local_admin

-- What ParseAuthorization makes of the header Authorization.
pub data Parsed : Type 0 where
  unreadable : AuthErr → Parsed
  readable : Request → Parsed

unfoldable pub authenticate :
    AdminCheck → List ℕ → Parsed → Db → Authenticator → Answer × Authenticator
unfolding admin_device authenticate_signed
authenticate check [] (unreadable e) db a = (rejected e, a)
authenticate check [] (readable req) db a = authenticate_signed db req a
authenticate check (t ∷ tok) parsed db a = (admin_device check (t ∷ tok), a)
