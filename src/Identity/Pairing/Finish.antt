-- ===== src/Identity/Pairing/Finish.antt =====
-- How Complete of internal/identity/identity.go changes the pairing sessions.
use nubilo.Prelude.{
  ℕ, ◌≤◌, ◌≡◌, refl, sym, subst, inl, inr, String, none, some, List, [], ◌==◌, arith, eq_iff,
  Bool-cases, Option-cases, any_row, find_row, find_row_passes, update,
}
use nubilo.Identity.Device.{Device, Role}
use nubilo.Identity.Users.{Hook, resolve_user}
use nubilo.Identity.Users.Apart.{resolve_user-view}
use nubilo.Store.{Db, User, PairingRow, or_empty}
use nubilo.Store.Env.{Env}
use nubilo.Store.Tx.{Result, ok, err, with_write-parts}
use nubilo.Identity.Pairing.{Service, start_pairing, open_session}
use nubilo.Identity.Completion.{
  bytes_of, paired_device, insert_paired, add_device, check_session, complete_found, complete,
  count_attempt,
}
use nubilo.Identity.Pairing.Change.{
  SessionChange, ChangeOf, most, same, changed, has_id, open_session-ChangeOf,
}

-- OnUserCreated leaves the pairing sessions alone.
abbrev pub KeepsSessions : Hook → Type 0
KeepsSessions hook = (u : User) (db : Db) → (hook u db).1.pairing_sessions ≡ db.pairing_sessions

pub resolve_user-sessions :
    (env : Env) (hook : Hook) (id : String) (now : ℕ) (user_id : String) (db : Db)
    → KeepsSessions hook
    → (resolve_user env hook id now user_id db).1.pairing_sessions ≡ db.pairing_sessions
resolve_user-sessions env hook id now user_id db keep =
    resolve_user-view (λ (x : Db). x.pairing_sessions) (λ x us. refl) hook keep env id now user_id
      db

pub start_pairing-ChangeOf :
    (env : Env) (hook : Hook) (service : Service) (owner id : String) (code salt : List ℕ) (now : ℕ)
    (user_id : String) (role : Role) (db : Db)
    → KeepsSessions hook
    → ChangeOf service db (start_pairing env hook service owner id code salt now user_id role db).1
unfolding start_pairing
start_pairing-ChangeOf env hook service owner id code salt now user_id role db keep =
    let resolved = resolve_user env hook owner now user_id db in
    subst
      (λ x.
        SessionChange (most service) x
          (open_session service id code salt now role resolved).1.pairing_sessions)
      (resolve_user-sessions env hook owner now user_id db keep)
      (open_session-ChangeOf service id code salt now role resolved)

insert_paired-ChangeOf :
    (service : Service) (session : String) (now : ℕ) (dev : Device) (row : PairingRow) (db : Db)
    (r : Device × Db)
    → find_row (has_id session) db.pairing_sessions ≡ some row
    → insert_paired session now dev db ≡ ok r
    → ChangeOf service db r.1
unfolding insert_paired
insert_paired-ChangeOf service session now dev row db r found h =
    elim (Bool-cases (any_row (λ (d : Device). d.id == dev.id) db.devices)) [
      | inl e ↦ absurd (ground (arith, e, h))
      | inr e ↦
          let f : PairingRow → PairingRow = λ x. record x {
            completed_at = some now;
            device_id = some dev.id;
            code_hash = [];
            challenge = none;
          } in
          let own =
            (eq_iff row.id session).0
              (find_row_passes (has_id session) db.pairing_sessions row found) in
          let after : update (has_id session) f db.pairing_sessions ≡ r.1.pairing_sessions =
            ground (arith, e, h) in
          subst (SessionChange (most service) db.pairing_sessions) after
            (changed (has_id session) session row f found own (λ x. refl) (λ x k. refl) (λ k. k))
    ]

add_device-ChangeOf :
    (service : Service) (session id : String) (now : ℕ) (row : PairingRow) (r : Result User × Db)
    → find_row (has_id session) r.1.pairing_sessions ≡ some row
    → ChangeOf service r.1 (add_device session id now row r).1
add_device-ChangeOf service session id now row (err e, db) found = same
add_device-ChangeOf service session id now row (ok u, db) found =
    let dev = paired_device id now row u in
    elim (with_write-parts (insert_paired session now dev) db) [
      | inl (r, e, w) ↦
          subst (λ x. ChangeOf service db x.1) (sym w)
            (insert_paired-ChangeOf service session now dev row db r found e)
      | inr (e, w) ↦ subst (λ x. ChangeOf service db x.1) (sym w) same
    ]

check_session-attempts :
    (service : Service) (now : ℕ) (r : PairingRow)
    → check_session service now r ≡ none
    → r.attempts ≤ service.max_attempts
unfolding check_session
check_session-attempts service now r h = ground (arith, h)

count_attempt-ChangeOf :
    (service : Service) (session : String) (row : PairingRow) (db : Db)
    → find_row (has_id session) db.pairing_sessions ≡ some row
    → row.attempts ≤ service.max_attempts
    → ChangeOf service db (count_attempt session db)
count_attempt-ChangeOf service session row db found few =
    let own =
      (eq_iff row.id session).0 (find_row_passes (has_id session) db.pairing_sessions row found) in
    changed (has_id session) session row _ found own (λ x. refl) (λ x k. k)
      (λ k. omega (arith, few))

complete_found-ChangeOf :
    (env : Env) (hook : Hook) (service : Service) (session owner id : String) (now : ℕ)
    (signature : List ℕ) (r : PairingRow) (db : Db)
    → KeepsSessions hook
    → find_row (has_id session) db.pairing_sessions ≡ some r
    → ChangeOf service db (complete_found env hook service session owner id now signature r db).1
unfolding complete_found
complete_found-ChangeOf env hook service session owner id now signature r db keep found =
    let resolved = resolve_user env hook owner now (or_empty r.user_id) db in
    let sessions = resolve_user-sessions env hook owner now (or_empty r.user_id) db keep in
    let moved = subst (λ x. find_row (has_id session) x ≡ some r) (sym sessions) found in
    let add =
      subst
        (λ x.
          SessionChange (most service) x (add_device session id now r resolved).1.pairing_sessions)
        sessions (add_device-ChangeOf service session id now r resolved moved) in
    elim (Option-cases (check_session service now r)) [
      | inr (e, refused) ↦ rw (complete_found, refused) same
      | inl fine ↦
          elim (Bool-cases
            (service.verify_ed25519 (bytes_of r.pending_pubkey) (bytes_of r.challenge) signature)) [
              | inl good ↦ rw (complete_found, fine) (rw good add)
              | inr bad ↦
                  rw (complete_found, fine)
                    (rw bad (
                      count_attempt-ChangeOf service session r db found
                        (check_session-attempts service now r fine)))
            ]
    ]

pub complete-ChangeOf :
    (env : Env) (hook : Hook) (service : Service) (session owner id : String) (now : ℕ)
    (signature : List ℕ) (db : Db)
    → KeepsSessions hook
    → ChangeOf service db (complete env hook service session owner id now signature db).1
unfolding complete
complete-ChangeOf env hook service session owner id now signature db keep =
    elim (Option-cases (find_row (has_id session) db.pairing_sessions)) [
      | inl e ↦ rw (complete, e) same
      | inr (r, e) ↦
          rw (complete, e)
            (complete_found-ChangeOf env hook service session owner id now signature r db keep e)
    ]
