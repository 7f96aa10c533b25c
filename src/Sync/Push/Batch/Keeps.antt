-- ===== src/Sync/Push/Batch/Keeps.antt =====
-- Invariants of a whole push: what every item keeps, and the stored answer keeps, the push keeps.
use nubilo.Prelude.{
  ◌≡◌, refl, inl, inr, ◌==◌, ◌||◌, Bool-cases, length, nat_eq, ltb, String, List, [], ◌∷◌, ◌++◌,
  Option, none, some, arith, subst, sym,
}
use nubilo.Prelude.{ℕ}
use nubilo.Identity.Device.{Device}
use nubilo.Store.{Db, Cached, PushResult}
use nubilo.Store.Env.{Env}
use nubilo.Store.Tx.{bind_parts, pure, Tx, Result, ok, err, with_write}
use nubilo.Sync.Types.{ChangeInput}
use nubilo.Sync.Push.{apply_one}
use nubilo.Sync.Push.Others.{IsOrdered, apply_one-IsOrdered}
use nubilo.Sync.Push.Batch.{
  load_idempotent, scoped_key, insert_cached, apply_all, store_results, push_tx, after_write,
  after_load, push,
}
use nubilo.Sync.Push.Batch.Laws.{insert_cached_lem}

module _ (env : Env) (dev : Device) (now : ℕ) (P : Db → Type 0)
    (item_keeps : (key : String) (item : ChangeInput) (db : Db) (res : PushResult) (db' : Db)
      → apply_one env dev key now item db ≡ ok (res, db')
      → P db
      → P db')
    (answer_keeps : (c : Cached) (db : Db)
      → P db
      → P (record db { idempotency = db.idempotency ++ c ∷ [] })) where
  apply_all-keeps :
      (key : String) (items : List ChangeInput) (db db' : Db) (rs : List PushResult)
      → apply_all env dev now key items db ≡ ok (rs, db')
      → P db
      → P db'
  unfolding apply_all
  apply_all-keeps key [] db db' rs h p = subst P (ground arith) p
  apply_all-keeps key (item ∷ rest) db db' rs h p =
      let (r, mid, one, k) =
        bind_parts (apply_one env dev key now item)
          (λ r. (λ d. elim (apply_all env dev now key rest d) [
            | ok q ↦ ok (r ∷ q.0, q.1)
            | err e ↦ err e
          ]))
          db h in
      let (others, end, all, l) =
        bind_parts (apply_all env dev now key rest) (λ others. pure (r ∷ others)) mid k in
      subst P (ground (arith, l))
        (apply_all-keeps key rest mid end others all (item_keeps key item db r mid one p))

  push_tx-keeps :
      (key : String) (items : List ChangeInput) (db db' : Db) (rs : List PushResult)
      → push_tx env dev now key items db ≡ ok (rs, db')
      → P db
      → P db'
  unfolding push_tx store_results
  push_tx-keeps key items db db' rs h p =
      let (results, mid, all, stored) =
        bind_parts (apply_all env dev now key items) (store_results env dev now key) db h in
      let row : Cached = record {
        key = key;
        device_id = dev.id;
        results = results;
        created_at = now;
      } in
      let (u, end, inserted, told) =
        bind_parts (insert_cached row) (λ _. pure results) mid stored in
      let added = insert_cached_lem row mid end u inserted in
      let kept = answer_keeps row mid (apply_all-keeps key items db mid results all p) in
      subst P (ground (arith, told, added)) kept

  with_write-keeps :
      (m : Tx (List PushResult)) (db : Db)
      → ((rs : List PushResult) (db' : Db) → m db ≡ ok (rs, db') → P db')
      → P db
      → P (with_write m db).1
  unfolding with_write
  with_write-keeps m db keep p = go (m db) refl
    where
      go :
          (t : Result (List PushResult × Db))
          → m db ≡ t
          → let r : Result (List PushResult) × Db = elim t [
            | ok r ↦ (ok r.0, r.1)
            | err e ↦ (err e, db)
          ] in
            P r.1
      go (ok (rs, db')) e = keep rs db' e
      go (err x) e = p

  after_write-same :
      (key : String) (w : Result (List PushResult) × Db) → (after_write env dev now key w).1 ≡ w.1
  unfolding after_write
  after_write-same key (ok rs, db) = refl
  after_write-same key (err e, db) = ground arith

  after_load-keeps :
      (key : String) (items : List ChangeInput) (t : Result (Option (List PushResult))) (db : Db)
      → P db
      → P (after_load env dev now key items t db).1
  unfolding after_load
  after_load-keeps key items (err e) db p = p
  after_load-keeps key items (ok (some rs)) db p = p
  after_load-keeps key items (ok none) db p =
      subst P (sym (after_write-same key (with_write (push_tx env dev now key items) db))) (
        with_write-keeps (push_tx env dev now key items) db
          (λ rs db' e. push_tx-keeps key items db db' rs e p) p)

  -- Whatever the push answers, it keeps what its items and its stored answer keep.
  pub push-keeps :
      (key : String) (items : List ChangeInput) (db : Db)
      → P db
      → P (push env dev now key items db).1
  unfolding push
  push-keeps key items db p =
      let loaded = load_idempotent db dev.id (scoped_key dev key) in
      elim (Bool-cases (nat_eq (length items) 0 || ltb 500 (length items))) [
        | inl bad ↦ rw bad p
        | inr fine ↦ elim (Bool-cases (key == "")) [
          | inl empty ↦ rw (fine, empty) p
          | inr keyed ↦ rw (fine, keyed) (after_load-keeps (scoped_key dev key) items loaded db p)
        ]
      ]

-- A push of any items, whatever it answers, keeps the journal in order: the sequence numbers of the rows
-- grow strictly, and none is past the counter.
pub push-IsOrdered :
    (env : Env) (dev : Device) (now : ℕ) (key : String) (items : List ChangeInput) (db : Db)
    → IsOrdered db
    → IsOrdered (push env dev now key items db).1
push-IsOrdered env dev now =
    push-keeps env dev now IsOrdered (λ key. apply_one-IsOrdered env dev key now) (λ c db w. w)
