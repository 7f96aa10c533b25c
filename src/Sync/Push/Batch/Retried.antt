-- ===== src/Sync/Push/Batch/Retried.antt =====
-- A push that is sent again, some time later (Push and loadIdempotent of
-- internal/syncengine/engine.go).
use nubilo.Prelude.{
  ℕ, ◌≤◌, ◌<◌, ◌≡◌, ap, ◌∙◌, inl, inr, String, List, [], ◌∷◌, ◌++◌, ◌==◌, some, arith, Option-cases,
  length, find_row, find_row-append_found,
}
use nubilo.Identity.Device.{Device}
use nubilo.Store.{Db, Cached, PushResult}
use nubilo.Store.Env.{Env}
use nubilo.Store.Tx.{ok}
use nubilo.Sync.Types.{ChangeInput}
use nubilo.Sync.Push.{apply_one}
use nubilo.Sync.Push.Writes.{write_create_lem, write_update_lem, write_delete_lem}
use nubilo.Sync.Push.Outcome.{
  Outcome, refusing, conflicting, already_gone, creating, updating, deleting,
}
use nubilo.Sync.Push.Outcome.Reading.{apply_one_out}
use nubilo.Sync.Push.Batch.{load_idempotent, scoped_key, push}
use nubilo.Sync.Push.Batch.Laws.{push_stores, answers_stored}
use nubilo.Sync.Push.Batch.Keeps.{push-keeps}

module _ (env : Env) (dev : Device) (idem : String) (now : ℕ) (item : ChangeInput) (db : Db)
    (res : PushResult) (db' : Db) where
  answers_out : Outcome env dev idem now item db res db' → db'.idempotency ≡ db.idempotency
  answers_out (refusing msg r refs) = ap (λ (d : Db). d.idempotency) refs.same
  answers_out (conflicting obj f r e) = ap (λ (d : Db). d.idempotency) e
  answers_out (already_gone obj f o g r e) = ap (λ (d : Db). d.idempotency) e
  answers_out (creating c sized cost mid t o f refs same q w) =
      let (r, e) = write_create_lem env dev idem now sized cost mid db' res w in
      ap (λ (d : Db). d.idempotency) e ∙ ap (λ (d : Db). d.idempotency) refs.same
  answers_out (updating c obj sized cost mid t m o f l st refs same q w) =
      let (r, e) = write_update_lem env dev idem now sized cost obj mid db' res w in
      ap (λ (d : Db). d.idempotency) e ∙ ap (λ (d : Db). d.idempotency) refs.same
  answers_out (deleting c obj t m o f l st w) =
      let (r, e) = write_delete_lem env dev idem now item obj db db' res w in
      ap (λ (d : Db). d.idempotency) e

-- No item writes to the table of answers.
apply_one-answers :
    (env : Env) (dev : Device) (idem : String) (now : ℕ) (item : ChangeInput) (db : Db)
    (res : PushResult) (db' : Db)
    → apply_one env dev idem now item db ≡ ok (res, db')
    → db'.idempotency ≡ db.idempotency
apply_one-answers env dev idem now item db res db' h =
    elim (apply_one_out env dev idem now item db res db' h) [
      | inl (msg, r, e) ↦ ap (λ (d : Db). d.idempotency) e
      | inr (valid, v, out) ↦ answers_out env dev idem now valid db res db' out
    ]

-- The answer that is stored under a key for a device.
abbrev Stored : String → String → List PushResult → Db → Type 0
Stored device_id key rs db = load_idempotent db device_id key ≡ ok (some rs)

same-Stored :
    (device_id key : String) (rs : List PushResult) (db db' : Db)
    → db'.idempotency ≡ db.idempotency
    → Stored device_id key rs db
    → Stored device_id key rs db'
unfolding load_idempotent
same-Stored device_id key rs db db' same h = rw same h

append-Stored :
    (device_id key : String) (rs : List PushResult) (c : Cached) (db : Db)
    → Stored device_id key rs db
    → Stored device_id key rs (record db { idempotency = db.idempotency ++ c ∷ [] })
unfolding load_idempotent
append-Stored device_id key rs c db h =
    let same : Cached → _ = λ (x : Cached). x.key == key in
    elim (Option-cases (find_row same db.idempotency)) [
      | inl e ↦ absurd (ground (arith, e, h))
      | inr (x, e) ↦ rw (find_row-append_found same db.idempotency c x e) (ground (arith, e, h))
    ]

-- A call of Push.
pub record Pushing : Type 0 where
  pub device : Device
  pub now : ℕ
  pub key : String
  pub items : List ChangeInput

unfoldable pub pushes : Env → List Pushing → Db → Db
pushes env [] db = db
pushes env (p ∷ ps) db = pushes env ps (push env p.device p.now p.key p.items db).1

pushes-Stored :
    (env : Env) (device_id key : String) (rs : List PushResult) (ps : List Pushing) (db : Db)
    → Stored device_id key rs db
    → Stored device_id key rs (pushes env ps db)
unfolding pushes
pushes-Stored env device_id key rs [] db h = h
pushes-Stored env device_id key rs (p ∷ ps) db h =
    pushes-Stored env device_id key rs ps (push env p.device p.now p.key p.items db).1 (
      push-keeps env p.device p.now (Stored device_id key rs)
        (λ k item d res d' run.
          same-Stored device_id key rs d d'
            (apply_one-answers env p.device k p.now item d res d' run))
        (λ c d. append-Stored device_id key rs c d) p.key p.items db h)

-- A retried push answers the same and writes nothing: once a push with a key has succeeded, a later
-- push of the same device with the same key, of any batch of one to 500 items, has the stored results
-- and leaves the database alone. Both have their own time, and in between come any pushes of any
-- devices, failed ones included; nothing else writes to the database in between.
pub push_idempotent :
    (env : Env) (dev : Device) (now later : ℕ) (key : String) (items again : List ChangeInput)
    (between : List Pushing) (db : Db) (rs : List PushResult)
    → (push env dev now key items db).0 ≡ ok rs
    → 0 < length again
    → length again ≤ 500
    → push env dev later key again (pushes env between (push env dev now key items db).1)
      ≡ (ok rs, pushes env between (push env dev now key items db).1)
push_idempotent env dev now later key items again between db rs h some_items few =
    let mid = (push env dev now key items db).1 in
    let (named, stored) = push_stores env dev now key items db rs h in
    let kept = pushes-Stored env dev.id (scoped_key dev key) rs between mid stored in
    answers_stored env dev later key again (pushes env between mid) rs named some_items few kept
