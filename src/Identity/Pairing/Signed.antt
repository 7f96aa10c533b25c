-- ===== src/Identity/Pairing/Signed.antt =====
-- What a successful Complete of internal/identity/identity.go shows.
use nubilo.Prelude.{
  ℕ, ◌≤◌, ◌<◌, ◌≡◌, ◌≢◌, refl, sym, ap, ◌∙◌, subst, inl, inr, String, true, none, some, List, [],
  ◌∷◌, ◌++◌, arith, Bool-cases, Option-cases, length, find_row,
}
use nubilo.Identity.Device.{Device, default_permissions}
use nubilo.Identity.Users.{Hook, resolve_user}
use nubilo.Store.{Db, User, PairingRow, or_empty}
use nubilo.Store.Env.{Env}
use nubilo.Store.Tx.{Result, ok, err, with_write, with_write-parts}
use nubilo.Identity.Pairing.{Service}
use nubilo.Identity.Completion.{
  bytes_of, pending_or_client, paired_device, insert_paired, add_device, check_session,
  complete_found, complete,
}
use nubilo.Identity.Pairing.Change.{has_id}

-- The user that the device gets and the state after the user was resolved.
abbrev Added : String → String → ℕ → PairingRow → Result User × Db → Device → Db → Type 0
Added session id now row r d after =
    (u : User) × (mid : Db) × (r ≡ (ok u, mid))
    × (d ≡ paired_device id now row u)
    × (insert_paired session now (paired_device id now row u) mid ≡ ok (d, after))

insert_paired-result :
    (session : String) (now : ℕ) (dev : Device) (db : Db) (r : Device × Db)
    → insert_paired session now dev db ≡ ok r
    → r.0 ≡ dev
unfolding insert_paired
insert_paired-result session now dev db r h = ground (arith, h)

insert_paired-devices :
    (session : String) (now : ℕ) (dev : Device) (db : Db) (d : Device) (after : Db)
    → insert_paired session now dev db ≡ ok (d, after)
    → after.devices ≡ db.devices ++ d ∷ []
unfolding insert_paired
insert_paired-devices session now dev db d after h = ground (arith, h)

add_device-parts :
    (session id : String) (now : ℕ) (row : PairingRow) (r : Result User × Db) (d : Device)
    → (add_device session id now row r).0 ≡ ok d
    → Added session id now row r d (add_device session id now row r).1
add_device-parts session id now row (err e, db) d h = absurd (ground (arith, h))
add_device-parts session id now row (ok u, db) d h =
    let dev = paired_device id now row u in
    elim (with_write-parts (insert_paired session now dev) db) [
      | inl (r, e, w) ↦
          let is : r.0 ≡ d = ground (arith, w, h) in
          let end : insert_paired session now dev db
              ≡ ok (d, (with_write (insert_paired session now dev) db).1) =
            ground (arith, w, h, e) in
          (u, db, refl, sym is ∙ insert_paired-result session now dev db r e, end)
      | inr (e, w) ↦ absurd (ground (arith, w, h))
    ]

-- The session that Complete found, its checks, and the device that it adds.
pub complete-parts :
    (env : Env) (hook : Hook) (service : Service) (session owner id : String) (now : ℕ)
    (signature : List ℕ) (db : Db) (d : Device)
    → (complete env hook service session owner id now signature db).0 ≡ ok d
    → (r : PairingRow) × (find_row (has_id session) db.pairing_sessions ≡ some r)
      × (check_session service now r ≡ none)
      × (service.verify_ed25519 (bytes_of r.pending_pubkey) (bytes_of r.challenge) signature ≡ true)
      × Added session id now r
          (resolve_user env hook owner now (or_empty r.user_id) db)
          d
          (complete env hook service session owner id now signature db).1
unfolding complete complete_found
complete-parts env hook service session owner id now signature db d h =
    elim (Option-cases (find_row (has_id session) db.pairing_sessions)) [
      | inl e ↦ absurd (ground (arith, e, h))
      | inr (r, e) ↦ elim (Option-cases (check_session service now r)) [
        | inr (x, refused) ↦ absurd (ground (arith, e, refused, h))
        | inl fine ↦
            elim (Bool-cases (
              service.verify_ed25519 (bytes_of r.pending_pubkey) (bytes_of r.challenge)
                signature)) [
                  | inr bad ↦ absurd (ground (arith, e, fine, bad, h))
                  | inl good ↦
                      let resolved = resolve_user env hook owner now (or_empty r.user_id) db in
                      let run : complete env hook service session owner id now signature db
                          ≡ add_device session id now r resolved =
                        rw (complete, e) (rw (complete_found, fine) (rw good refl)) in
                      let parts =
                        add_device-parts session id now r resolved d
                          (subst (λ x. x.0 ≡ ok d) run h) in
                      (
                        r,
                        e,
                        fine,
                        good,
                        subst (λ x. Added session id now r resolved d x.1) (sym run) parts,
                      )
                ]
      ]
    ]

check_session-parts :
    (service : Service) (now : ℕ) (r : PairingRow)
    → check_session service now r ≡ none
    → (r.completed_at ≡ none)
      × (now < r.expires_at)
      × (r.attempts ≤ service.max_attempts)
      × (length (bytes_of r.challenge) ≢ 0)
unfolding check_session
check_session-parts service now r h = elim (Option-cases r.completed_at) [
  | inl e ↦ (e, ground (arith, h, e), ground (arith, h, e), λ z. ground (arith, h, e, z))
  | inr (t, e) ↦ absurd (ground (arith, h, e))
]

-- Complete adds a device only where the signature verifies, under the public key that the device
-- gets, over the challenge that Begin stored in the session and that is not empty: the session is not
-- completed and not expired and has at most MaxAttempts attempts. The device is the last row of the table
-- that is left, and has the permissions of the role that the session was started for.
pub complete_signed :
    (env : Env) (hook : Hook) (service : Service) (session owner id : String) (now : ℕ)
    (signature : List ℕ) (db : Db) (d : Device)
    → (complete env hook service session owner id now signature db).0 ≡ ok d
    → (r : PairingRow) × (rest : List Device) × (find_row (has_id session) db.pairing_sessions
        ≡ some r)
      × (r.completed_at ≡ none)
      × (now < r.expires_at)
      × (r.attempts ≤ service.max_attempts)
      × (length (bytes_of r.challenge) ≢ 0)
      × (service.verify_ed25519 d.public_key (bytes_of r.challenge) signature ≡ true)
      × (d.id ≡ id)
      × (d.role ≡ pending_or_client r.pending_role)
      × (d.permissions ≡ default_permissions d.role)
      × ((complete env hook service session owner id now signature db).1.devices ≡ rest ++ d ∷ [])
complete_signed env hook service session owner id now signature db d h =
    let (r, found, fine, good, added_for) =
      complete-parts env hook service session owner id now signature db d h in
    let (u, mid, resolved, is, made) = added_for in
    let (unfinished, early, few, challenged) = check_session-parts service now r fine in
    let key = ap (λ (x : Device). x.public_key) is in
    (
      r,
      mid.devices,
      found,
      unfinished,
      early,
      few,
      challenged,
      subst (λ k. service.verify_ed25519 k (bytes_of r.challenge) signature ≡ true) (sym key) good,
      ap (λ (x : Device). x.id) is,
      ap (λ (x : Device). x.role) is,
      ap (λ (x : Device). x.permissions) is
          ∙ ap default_permissions (sym (ap (λ (x : Device). x.role) is)),
      insert_paired-devices session now (paired_device id now r u) mid d _ made,
    )
