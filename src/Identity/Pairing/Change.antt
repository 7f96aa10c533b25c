-- ===== src/Identity/Pairing/Change.antt =====
-- How StartPairing and Begin of internal/identity/identity.go change the pairing sessions.
use nubilo.Prelude.{
  ℕ, ◌+◌, ◌≤◌, ◌≡◌, refl, sym, subst, inl, inr, String, Bool, true, false, not, some, List, [], ◌∷◌,
  ◌++◌, ◌==◌, arith, Bool-cases, Option-cases, nat_eq, leb, length, any_row, find_row, update,
  if◌then◌else◌,
}
use nubilo.Identity.Device.{Role}
use nubilo.Identity.Names.{sanitize_name}
use nubilo.Store.{Db, User, PairingRow, is_null}
use nubilo.Store.Env.{Env}
use nubilo.Store.Tx.{Result, ok, err, bad_key, with_write-parts}
use nubilo.Crypto.Codes.{normalize_pairing_code}
use nubilo.Identity.Pairing.{
  Service, insert_session, new_session, open_session, BeginRequest, find_session, take_attempt,
  begin, active_sessions,
}

abbrev pub has_id : String → PairingRow → Bool
has_id id r = r.id == id

-- A step leaves the sessions alone, adds a new one, or changes the one that Begin found or Complete
-- was called for: it keeps its id, stays completed, and has no more attempts than the limit if it had.
pub data SessionChange (limit : ℕ) : List PairingRow → List PairingRow → Type 0 where
  same : {rows : List PairingRow} → SessionChange limit rows rows
  added :
      {rows : List PairingRow} (row : PairingRow)
      → row.attempts ≡ 0
      → any_row (has_id row.id) rows ≡ false
      → SessionChange limit rows (rows ++ row ∷ [])
  changed :
      {rows : List PairingRow} (p : PairingRow → Bool) (id : String) (r : PairingRow)
      (f : PairingRow → PairingRow)
      → find_row p rows ≡ some r
      → r.id ≡ id
      → ((x : PairingRow) → (f x).id ≡ x.id)
      → ((x : PairingRow) → is_null x.completed_at ≡ false → is_null (f x).completed_at ≡ false)
      → (r.attempts ≤ limit → (f r).attempts ≤ limit)
      → SessionChange limit rows (update (has_id id) f rows)

-- One more than MaxAttempts.
abbrev pub most : Service → ℕ
most service = service.max_attempts + 1

abbrev pub ChangeOf : Service → Db → Db → Type 0
ChangeOf service db after = SessionChange (most service) db.pairing_sessions after.pairing_sessions

insert_session-ChangeOf :
    (service : Service) (row : PairingRow) (db : Db) (r : Unit {0} × Db)
    → row.attempts ≡ 0
    → insert_session row db ≡ ok r
    → ChangeOf service db r.1
unfolding insert_session
insert_session-ChangeOf service row db r zero_attempts h =
    elim (Bool-cases (any_row (has_id row.id) db.pairing_sessions)) [
      | inl e ↦ absurd (ground (arith, e, h))
      | inr e ↦
          let same : db.pairing_sessions ++ row ∷ [] ≡ r.1.pairing_sessions =
            ground (arith, e, h) in
          subst (SessionChange (most service) db.pairing_sessions) same (added row zero_attempts e)
    ]

pub open_session-ChangeOf :
    (service : Service) (id : String) (code salt : List ℕ) (now : ℕ) (role : Role)
    (r : Result User × Db)
    → ChangeOf service r.1 (open_session service id code salt now role r).1
unfolding open_session
open_session-ChangeOf service id code salt now role (err e, db) = same
open_session-ChangeOf service id code salt now role (ok u, db) =
    elim (Bool-cases (leb service.max_active (active_sessions db now u.id))) [
      | inl full ↦ rw full same
      | inr room ↦
          let row = new_session service id code salt now role u.id in
          rw room (elim (with_write-parts (insert_session row) db) [
            | inl (r, e, w) ↦
                subst (λ x. ChangeOf service db x.1) (sym w)
                  (insert_session-ChangeOf service row db r refl e)
            | inr (e, w) ↦ subst (λ x. ChangeOf service db x.1) (sym w) same
          ])
    ]

found_attempt :
    (service : Service) (challenge public_key : List ℕ) (name : String) (now : ℕ)
    (p : PairingRow → Bool) (r : PairingRow) (db : Db)
    → find_row p db.pairing_sessions ≡ some r
    → ChangeOf service db (take_attempt service challenge public_key name now (some r) db).1
unfolding take_attempt
found_attempt service challenge public_key name now p r db e =
    elim (Bool-cases (leb r.expires_at now)) [
      | inl late ↦ rw late same
      | inr soon ↦ elim (Bool-cases (leb service.max_attempts r.attempts)) [
        | inl tried ↦ rw soon (rw tried same)
        | inr left ↦
            rw soon (
              rw left
                (changed p r.id r _ e refl (λ x. refl) (λ x h. h) (λ h. ground (arith, left))))
      ]
    ]

take_attempt-ChangeOf :
    (service : Service) (challenge public_key : List ℕ) (name : String) (now : ℕ) (code : List ℕ)
    (at : ℕ) (db : Db)
    → ChangeOf service db
        (take_attempt service challenge public_key name now (find_session service code at db) db).1
unfolding take_attempt find_session
take_attempt-ChangeOf service challenge public_key name now code at db =
    elim (Option-cases (find_session service code at db)) [
      | inl e ↦ rw e same
      | inr (r, e) ↦ rw e (found_attempt service challenge public_key name now _ r db e)
    ]

pub begin-ChangeOf :
    (env : Env) (service : Service) (challenge : List ℕ) (now : ℕ) (req : BeginRequest) (db : Db)
    → ChangeOf service db (begin env service challenge now req db).1
unfolding begin
begin-ChangeOf env service challenge now req db =
    let code = normalize_pairing_code req.code in
    elim (Bool-cases (nat_eq (length code) 10)) [
      | inr short ↦ rw short same
      | inl ten ↦ rw ten (named (sanitize_name env req.name))
    ]
  where
    keyed :
        (name : String) (b : Bool)
        → ChangeOf service db
            (if b
              then (err bad_key, db)
              else take_attempt service challenge req.public_key name now
                  (find_session service (normalize_pairing_code req.code) now db)
                  db).1
    keyed name true = same
    keyed name false =
        take_attempt-ChangeOf service challenge req.public_key name now
          (normalize_pairing_code req.code) now db

    named :
        (t : Result String)
        → ChangeOf service db
            (elim t as (λ _. Result String × Db) [
              | err e ↦ (err e, db)
              | ok name ↦
                  if not (nat_eq (length req.public_key) 32)
                  then (err bad_key, db)
                  else take_attempt service challenge req.public_key name now
                      (find_session service (normalize_pairing_code req.code) now db)
                      db
            ]).1
    named (err e) = same
    named (ok name) = keyed name (not (nat_eq (length req.public_key) 32))
