-- ===== src/Identity/Pairing/Once.antt =====
-- What any sequence of calls of StartPairing, Begin and Complete (internal/identity/identity.go) keeps.
use nubilo.Prelude.{
  ℕ, ◌≡◌, refl, sym, subst, inl, inr, String, Bool, true, false, not, Option, none, some, List, [],
  ◌∷◌, ◌++◌, arith, Option-cases, find_row, update,
}
use nubilo.Identity.Device.{Device, Role}
use nubilo.Identity.Users.{Hook}
use nubilo.Store.{Db, PairingRow, or_empty, is_null}
use nubilo.Store.Env.{Env}
use nubilo.Store.Tx.{ok, err, completed}
use nubilo.Identity.Pairing.{Service, start_pairing, BeginRequest, begin}
use nubilo.Identity.Completion.{
  complete, complete_found, check_session, insert_paired, paired_device,
}
use nubilo.Identity.Pairing.Signed.{complete-parts}
use nubilo.Identity.Pairing.Change.{
  SessionChange, most, same, added, changed, has_id, begin-ChangeOf,
}
use nubilo.Identity.Pairing.Finish.{
  KeepsSessions, resolve_user-sessions, start_pairing-ChangeOf, complete-ChangeOf,
}

-- One call of StartPairing, Begin or Complete, and the state that it leaves, whether or not it succeeds.
pub data PairingStep (env : Env) (hook : Hook) (service : Service) : Db → Db → Type 0 where
  started :
      {db : Db} (owner id : String) (code salt : List ℕ) (now : ℕ) (user_id : String) (role : Role)
      → PairingStep env hook service db
          (start_pairing env hook service owner id code salt now user_id role db).1
  begun :
      {db : Db} (challenge : List ℕ) (now : ℕ) (req : BeginRequest)
      → PairingStep env hook service db (begin env service challenge now req db).1
  finished :
      {db : Db} (session owner id : String) (now : ℕ) (signature : List ℕ)
      → PairingStep env hook service db
          (complete env hook service session owner id now signature db).1

pub data PairingSteps (env : Env) (hook : Hook) (service : Service) : Db → Db → Type 0 where
  done : {db : Db} → PairingSteps env hook service db db
  next :
      {db mid after : Db}
      → PairingStep env hook service db mid
      → PairingSteps env hook service mid after
      → PairingSteps env hook service db after

pub step-ChangeOf :
    (env : Env) (hook : Hook) (service : Service) {db after : Db}
    → KeepsSessions hook
    → PairingStep env hook service db after
    → SessionChange (most service) db.pairing_sessions after.pairing_sessions
step-ChangeOf env hook service keep (started owner id code salt now user_id role) =
    start_pairing-ChangeOf env hook service owner id code salt now user_id role _ keep
step-ChangeOf env hook service keep (begun challenge now req) =
    begin-ChangeOf env service challenge now req _
step-ChangeOf env hook service keep (finished session owner id now signature) =
    complete-ChangeOf env hook service session owner id now signature _ keep

-- The session of the id is completed.
abbrev is_completed : Option PairingRow → Bool
is_completed none = false
is_completed (some r) = not (is_null r.completed_at)

abbrev Completed : String → List PairingRow → Type 0
Completed id rows = is_completed (find_row (has_id id) rows) ≡ true

append-Completed :
    (id : String) (rows : List PairingRow) (row : PairingRow)
    → Completed id rows
    → Completed id (rows ++ row ∷ [])
unfolding find_row
append-Completed id [] row h = ground arith
append-Completed id (r ∷ rs) row h = ground (arith, append-Completed id rs row)

update-Completed :
    (id other : String) (f : PairingRow → PairingRow) (rows : List PairingRow)
    → ((x : PairingRow) → (f x).id ≡ x.id)
    → ((x : PairingRow) → is_null x.completed_at ≡ false → is_null (f x).completed_at ≡ false)
    → Completed id rows
    → Completed id (update (has_id other) f rows)
unfolding find_row update
update-Completed id other f [] own keep h = ground arith
update-Completed id other f (r ∷ rs) own keep h =
    ground (arith, own r, keep r, update-Completed id other f rs own keep)

change-Completed :
    (limit : ℕ) (id : String) {rows after : List PairingRow}
    → SessionChange limit rows after
    → Completed id rows
    → Completed id after
change-Completed limit id same h = h
change-Completed limit id (added row z fresh) h = append-Completed id _ row h
change-Completed limit id (changed p other r f e is own keep few) h =
    update-Completed id other f _ own keep h

steps-Completed :
    (env : Env) (hook : Hook) (service : Service) (id : String) {db after : Db}
    → KeepsSessions hook
    → PairingSteps env hook service db after
    → Completed id db.pairing_sessions
    → Completed id after.pairing_sessions
steps-Completed env hook service id keep done h = h
steps-Completed env hook service id keep (next s rest) h =
    steps-Completed env hook service id keep rest
      (change-Completed (most service) id (step-ChangeOf env hook service keep s) h)

refuses_completed :
    (env : Env) (hook : Hook) (service : Service) (session owner id : String) (now : ℕ)
    (signature : List ℕ) (db : Db)
    → Completed session db.pairing_sessions
    → complete env hook service session owner id now signature db ≡ (err completed, db)
unfolding complete complete_found check_session
refuses_completed env hook service session owner id now signature db h =
    elim (Option-cases (find_row (has_id session) db.pairing_sessions)) [
      | inl e ↦ absurd (ground (arith, e, h))
      | inr (r, e) ↦
          let shut : is_null r.completed_at ≡ false = ground (arith, e, h) in
          rw (complete, e) (rw (complete_found, check_session, shut) refl)
    ]

update-completes :
    (id : String) (f : PairingRow → PairingRow) (rows : List PairingRow) (row : PairingRow)
    → ((x : PairingRow) → (f x).id ≡ x.id)
    → ((x : PairingRow) → is_null (f x).completed_at ≡ false)
    → find_row (has_id id) rows ≡ some row
    → Completed id (update (has_id id) f rows)
unfolding find_row update
update-completes id f [] row own shut h = ground arith
update-completes id f (r ∷ rs) row own shut h =
    ground (arith, own r, shut r, update-completes id f rs row own shut)

insert_paired-Completed :
    (session : String) (now : ℕ) (dev : Device) (row : PairingRow) (db after : Db) (d : Device)
    → find_row (has_id session) db.pairing_sessions ≡ some row
    → insert_paired session now dev db ≡ ok (d, after)
    → Completed session after.pairing_sessions
unfolding insert_paired
insert_paired-Completed session now dev row db after d found h =
    let f : PairingRow → PairingRow = λ x. record x {
      completed_at = some now;
      device_id = some dev.id;
      code_hash = [];
      challenge = none;
    } in
    let rows : update (has_id session) f db.pairing_sessions ≡ after.pairing_sessions =
      ground (arith, h) in
    subst (Completed session) rows
      (update-completes session f db.pairing_sessions row (λ x. refl) (λ x. refl) found)

-- A pairing session makes one device at most: once Complete has added a device for it, every later
-- Complete of that session answers ErrCompleted and changes nothing, after any sequence of calls of
-- StartPairing, Begin and Complete, failed ones included, where OnUserCreated leaves the pairing
-- sessions alone and no two of the calls overlap.
pub paired_once :
    (env : Env) (hook : Hook) (service : Service) (session owner id : String) (now : ℕ)
    (signature : List ℕ) (db after : Db) (d : Device)
    → KeepsSessions hook
    → (complete env hook service session owner id now signature db).0 ≡ ok d
    → PairingSteps env hook service
        (complete env hook service session owner id now signature db).1
        after
    → (owner' id' : String) (later : ℕ) (again : List ℕ)
    → complete env hook service session owner' id' later again after ≡ (err completed, after)
paired_once env hook service session owner id now signature db after d keep h steps owner' id' later
      again =
    let (r, found, fine, good, added_for) =
      complete-parts env hook service session owner id now signature db d h in
    let (u, mid, resolved, is, made) = added_for in
    let sessions = resolve_user-sessions env hook owner now (or_empty r.user_id) db keep in
    let same : mid.pairing_sessions ≡ db.pairing_sessions =
      subst (λ x. x.1.pairing_sessions ≡ db.pairing_sessions) resolved sessions in
    let here = subst (λ x. find_row (has_id session) x ≡ some r) (sym same) found in
    let first =
      insert_paired-Completed session now (paired_device id now r u) r mid _ d here made in
    refuses_completed env hook service session owner' id' later again after
      (steps-Completed env hook service session keep steps first)
