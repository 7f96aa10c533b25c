-- ===== src/Sync/Push/Batch.antt =====
-- Push and loadIdempotent of internal/syncengine/engine.go. The stored result is the list of results
-- itself: its JSON form is encoding/json's.
pub mod Laws
pub mod Keeps
pub mod Retried
use Prim.Native.String
use nubilo.Prelude.{
  ℕ, String, Bool, true, false, ◌||◌, Option, none, some, List, [], ◌∷◌, ◌++◌, ◌==◌, length, nat_eq,
  ltb, any_row, find_row, if◌then◌else◌,
}
use nubilo.Identity.Device.{Device}
use nubilo.Store.{Db, Cached, PushResult}
use nubilo.Store.Env.{Env}
use nubilo.Store.Tx.{
  Tx, Result, Err, ok, err, bad_batch, key_required, idempotency, unique, pure, with_write, ◌>>=◌,
  ◌>>◌,
}
use nubilo.Sync.Types.{ChangeInput}
use nubilo.Sync.Push.{apply_one}

unfoldable pub cached_for : String → Option Cached → Result (Option (List PushResult))
cached_for device_id none = ok none
cached_for device_id (some c) =
    if c.device_id == device_id then ok (some c.results) else err idempotency

unfoldable pub load_idempotent : Db → String → String → Result (Option (List PushResult))
unfolding cached_for
load_idempotent db device_id key =
    cached_for device_id (find_row (λ (c : Cached). c.key == key) db.idempotency)

-- Keys are scoped per device: dev.ID + ":" + idempotencyKey.
unfoldable pub scoped_key : Device → String → String
scoped_key dev key = String.◌++◌ dev.id (String.◌++◌ ":" key)

-- PRIMARY KEY (key)
unfoldable pub insert_cached : Cached → Tx (Unit {0})
insert_cached c db =
    if any_row (λ (x : Cached). x.key == c.key) db.idempotency
    then err unique
    else ok (tt, record db { idempotency = db.idempotency ++ c ∷ [] })

module _ (env : Env) (dev : Device) (now : ℕ) where
  unfoldable pub apply_all : String → List ChangeInput → Tx (List PushResult)
  apply_all key [] = pure []
  apply_all key (item ∷ rest) = do
    r ← apply_one env dev key now item
    rs ← apply_all key rest
    pure (r ∷ rs)

  unfoldable pub store_results : String → List PushResult → Tx (List PushResult)
  unfolding insert_cached
  store_results key results = do
    insert_cached (record { key = key; device_id = dev.id; results = results; created_at = now })
    pure results

  unfoldable pub push_tx : String → List ChangeInput → Tx (List PushResult)
  push_tx key items = do results ← apply_all key items; store_results key results

  abbrev is_unique : Err → Bool
  is_unique unique = true
  is_unique _ = false

  -- A lost race on the key answers with the winner's results.
  unfoldable pub answer_race : Err → Result (Option (List PushResult)) → Result (List PushResult)
  answer_race e (ok (some results)) = ok results
  answer_race e _ = err e

  unfoldable pub after_write :
      String → Result (List PushResult) × Db → Result (List PushResult) × Db
  unfolding answer_race load_idempotent
  after_write key (ok results, db) = (ok results, db)
  after_write key (err e, db) =
      if is_unique e then (answer_race e (load_idempotent db dev.id key), db) else (err e, db)

  unfoldable pub after_load :
      String
      → List ChangeInput
      → Result (Option (List PushResult))
      → Db
      → Result (List PushResult) × Db
  unfolding after_write push_tx with_write
  after_load key items (err e) db = (err e, db)
  after_load key items (ok (some results)) db = (ok results, db)
  after_load key items (ok none) db = after_write key (with_write (push_tx key items) db)

  unfoldable pub push : String → List ChangeInput → Db → Result (List PushResult) × Db
  unfolding after_load scoped_key
  push key items db =
      if nat_eq (length items) 0 || ltb 500 (length items)
      then (err bad_batch, db)
      else if key == ""
      then (err key_required, db)
      else after_load (scoped_key dev key) items (load_idempotent db dev.id (scoped_key dev key)) db
