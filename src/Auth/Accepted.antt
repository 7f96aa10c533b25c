-- ===== src/Auth/Accepted.antt =====
-- What an accepted request shows (AuthenticateRequest of internal/auth/auth.go).
use nubilo.Prelude.{
  ℕ, ◌≡◌, ◌≢◌, ◌⊎◌, List, [], ◌∷◌, bytes_eq, bytes_eq→eq, refl, ap, subst, inl, inr, true, false,
  Option, none, some, arith, Bool-cases, length,
}
use nubilo.Identity.Device.{Device, revoked}
use nubilo.Store.{Db}
use nubilo.Auth.Nonces.{AuthErr, Authenticator}
use nubilo.Auth.Request.{
  AdminCheck, Parsed, readable, unreadable, local_admin, admin_device, authenticate, Request,
  accepted, answer_nonce, with_skew, outside_window, get_device, check_device, authenticate_signed,
}
use nubilo.Auth.Replay.{consumed}

answered :
    (d e : Device) (p : Option AuthErr × Authenticator) → (answer_nonce d p).0 ≡ accepted e → d ≡ e
answered d e (none, a) h = ground arith
answered d e (some x, a) h = ground arith

checked :
    (req : Request) (t : Option Device) (a : Authenticator) (d : Device)
    → (check_device req t a).0 ≡ accepted d
    → (t ≡ some d)
      × (revoked d ≡ false)
      × (length d.public_key ≡ 32)
      × (req.signed d.public_key ≡ true)
unfolding check_device
checked req none a d h = ground arith
checked req (some e) a d h =
    let facts : (revoked e ≡ false)
        × (length e.public_key ≡ 32)
        × (req.signed e.public_key ≡ true)
        × ((answer_nonce e (consumed req a)).0 ≡ accepted d) =
      ground (arith, h) in
    let same = answered e d (consumed req a) facts.3 in
    (
      ap some same,
      subst (λ x. revoked x ≡ false) same facts.0,
      subst (λ (x : Device). length x.public_key ≡ 32) same facts.1,
      subst (λ (x : Device). req.signed x.public_key ≡ true) same facts.2,
    )

pub signed_accepted :
    (db : Db) (req : Request) (a : Authenticator) (d : Device)
    → (authenticate_signed db req a).0 ≡ accepted d
    → (get_device db req.header.device_id ≡ some d)
      × (revoked d ≡ false)
      × (length d.public_key ≡ 32)
      × (req.signed d.public_key ≡ true)
unfolding authenticate_signed
signed_accepted db req a d h =
    elim (Bool-cases (outside_window req.now req.header.ts (with_skew a).skew_ms)) [
      | inl far ↦ absurd (ground (arith, far, h))
      | inr near ↦
          checked req (get_device db req.header.device_id) (with_skew a) d (ground (arith, near, h))
    ]

admin_accepted :
    (check : AdminCheck) (tok : List ℕ) (d : Device)
    → admin_device check tok ≡ accepted d
    → (d ≡ local_admin)
      × (length check.admin_tok ≢ 0)
      × (check.loopback ≡ true)
      × (check.sha256 tok ≡ check.sha256 check.admin_tok)
unfolding admin_device
admin_accepted check tok d h =
    elim (Bool-cases (bytes_eq (check.sha256 tok) (check.sha256 check.admin_tok))) [
      | inr e ↦ absurd (ground (arith, e, h))
      | inl e ↦ (
        ground (arith, e, h),
        λ z. ground (arith, z, h),
        ground (arith, e, h),
        bytes_eq→eq (check.sha256 tok) (check.sha256 check.admin_tok) e,
      )
    ]

-- A request is accepted in two ways only. With an X-Nubilo-Admin header it comes from a loopback
-- address, the server has an admin token whose SHA-256 hash is that of the header's token, and the
-- device is the local admin. Without that header it is accepted only for the device that its
-- Authorization header names, as the tables have it at the time: it is there, neither it nor its user
-- is revoked or disabled, and the message verifies under the public key of 32 bytes stored for it.
pub accepted_signed :
    (check : AdminCheck) (tok : List ℕ) (header : Parsed) (db : Db) (a : Authenticator) (d : Device)
    → (authenticate check tok header db a).0 ≡ accepted d
    → ((tok ≢ [])
        × (d ≡ local_admin)
        × (length check.admin_tok ≢ 0)
        × (check.loopback ≡ true)
        × (check.sha256 tok ≡ check.sha256 check.admin_tok))
      ⊎ ((tok ≡ [])
          × (req : Request) × (header ≡ readable req)
          × (get_device db req.header.device_id ≡ some d)
          × (revoked d ≡ false)
          × (length d.public_key ≡ 32)
          × (req.signed d.public_key ≡ true))
unfolding authenticate
accepted_signed check [] (unreadable e) db a d h = absurd (ground (arith, h))
accepted_signed check [] (readable req) db a d h =
    let (named, live, keyed, verifies) = signed_accepted db req a d h in
    inr (refl, req, refl, named, live, keyed, verifies)
accepted_signed check (t ∷ tok) header db a d h =
    let (is, some_token, local, hashed) = admin_accepted check (t ∷ tok) d h in
    inl (λ e. ground (arith, e), is, some_token, local, hashed)
