-- ===== src/Sync/Push/Batch/Laws.antt =====
-- What a push stores under its idempotency key, and what it answers from there (Push of
-- internal/syncengine/engine.go).
use nubilo.Prelude.{
  ℕ, ◌<◌, ◌≤◌, ◌≡◌, refl, ap, ◌∙◌, String, false, ◌++◌, Option, none, some, List, [], ◌∷◌, ◌==◌,
  arith, eq_refl, length, any_row, find_row, find_row-append, find_row-any_row, if◌then◌else◌,
}
use nubilo.Identity.Device.{Device}
use nubilo.Store.{Db, Cached, PushResult}
use nubilo.Store.Env.{Env}
use nubilo.Store.Tx.{bind_parts, pure, Result, ok, err, with_write}
use nubilo.Sync.Types.{ChangeInput}
use nubilo.Sync.Push.Batch.{
  load_idempotent, scoped_key, insert_cached, apply_all, store_results, push_tx, answer_race,
  after_write, after_load, push,
}

pub insert_cached_lem :
    (c : Cached) (db db' : Db) (u : Unit {0})
    → insert_cached c db ≡ ok (u, db')
    → (any_row (λ (x : Cached). x.key == c.key) db.idempotency ≡ false)
      × (db' ≡ record db { idempotency = db.idempotency ++ c ∷ [] })
unfolding insert_cached
insert_cached_lem c db db' u h = ground arith

module _ (env : Env) (dev : Device) (now : ℕ) where
  store_results_stores :
      (key : String) (results rs : List PushResult) (db db' : Db)
      → store_results env dev now key results db ≡ ok (rs, db')
      → load_idempotent db' dev.id key ≡ ok (some rs)
  unfolding store_results load_idempotent
  store_results_stores key results rs db db' h =
      let row : Cached = record {
        key = key;
        device_id = dev.id;
        results = results;
        created_at = now;
      } in
      let same = λ (x : Cached). x.key == key in
      let (u, mid, inserted, told) = bind_parts (insert_cached row) (λ _. pure results) db h in
      let (free, added) = insert_cached_lem row db mid u inserted in
      let idem : db'.idempotency ≡ db.idempotency ++ row ∷ [] = ground (arith, told, added) in
      let found : find_row same db'.idempotency ≡ some row =
        ap (find_row same) idem
        ∙ find_row-append same db.idempotency row (find_row-any_row same db.idempotency free)
        ∙ ap (λ b. if b then some row else none) (eq_refl key) in
      rw found (ground (arith, eq_refl dev.id, told))

  -- A written push has stored its results under its key.
  push_tx_stores :
      (key : String) (items : List ChangeInput) (db db' : Db) (rs : List PushResult)
      → push_tx env dev now key items db ≡ ok (rs, db')
      → load_idempotent db' dev.id key ≡ ok (some rs)
  unfolding push_tx
  push_tx_stores key items db db' rs h =
      let (results, mid, applied, stored) =
        bind_parts (apply_all env dev now key items) (store_results env dev now key) db h in
      store_results_stores key results rs mid db' stored

  after_load_stores :
      (key : String) (items : List ChangeInput) (db db' : Db) (rs : List PushResult)
      (t : Result (Option (List PushResult)))
      → load_idempotent db dev.id key ≡ t
      → after_load env dev now key items t db ≡ (ok rs, db')
      → load_idempotent db' dev.id key ≡ ok (some rs)
  unfolding after_load after_write with_write answer_race
  after_load_stores key items db db' rs (err e) m h = cc
  after_load_stores key items db db' rs (ok (some results)) m h = ground (arith, m)
  after_load_stores key items db db' rs (ok none) m h =
      ground (arith, m, push_tx_stores key items db db' rs)

  -- A push that succeeds has a key, and its results are stored under it.
  pub push_stores :
      (key : String) (items : List ChangeInput) (db : Db) (rs : List PushResult)
      → (push env dev now key items db).0 ≡ ok rs
      → ((key == "") ≡ false)
        × (load_idempotent (push env dev now key items db).1 dev.id (scoped_key dev key)
            ≡ ok (some rs))
  unfolding push after_load
  push_stores key items db rs h =
      let scoped = scoped_key dev key in
      let end = (push env dev now key items db).1 in
      ground
        (arith, h, after_load_stores scoped items db end rs (load_idempotent db dev.id scoped) refl)

  -- A push with a key under which results are stored answers them.
  pub answers_stored :
      (key : String) (again : List ChangeInput) (db : Db) (rs : List PushResult)
      → (key == "") ≡ false
      → 0 < length again
      → length again ≤ 500
      → load_idempotent db dev.id (scoped_key dev key) ≡ ok (some rs)
      → push env dev now key again db ≡ (ok rs, db)
  unfolding push after_load
  answers_stored key again db rs named some_items few stored =
      ground (arith, named, some_items, few, stored)
