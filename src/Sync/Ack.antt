-- ===== src/Sync/Ack.antt =====
-- The cursor that a device acknowledges: Ack of internal/syncengine/engine.go, on the cursors of
-- scope "*".
use nubilo.Prelude.{
  ℕ, ◌≤◌, ◌≡◌, refl, ap, ◌∙◌, String, false, ◌||◌, Option, none, some, ◌==◌, max, arith, eq_refl,
  find_row, ltb, Bool-cases, inl, inr, upsert, merged, find_row-upsert, if◌then◌else◌,
}
use nubilo.Prelude.Int.{ℤ, pos, pos_part, ltb_ℤ}
use nubilo.Store.{Db, Cursor}
use nubilo.Store.Tx.{Tx, Result, ok, err, future_cursor, pure, modify, with_write}
use nubilo.Sync.Changes.{head_seq}

unfoldable pub find_cursor : Db → String → Option Cursor
find_cursor db device_id = find_row (λ (c : Cursor). c.device_id == device_id) db.cursors

-- ON CONFLICT(device_id, scope) DO UPDATE.
unfoldable pub upsert_cursor : Cursor → Db → Db
upsert_cursor c db = record db {
  cursors =
      upsert (λ (x : Cursor). x.device_id == c.device_id)
        (λ (x : Cursor). record x { last_ack_seq = c.last_ack_seq; last_ack_at = c.last_ack_at }) c
        db.cursors;
}

-- The write, which never moves a cursor backwards.
unfoldable pub move_cursor : Cursor → Option Cursor → Tx (Unit {0})
unfolding upsert_cursor
move_cursor c none = modify (upsert_cursor c)
move_cursor c (some old) =
    if ltb c.last_ack_seq old.last_ack_seq then pure tt else modify (upsert_cursor c)

unfoldable pub ack : String → ℤ → ℕ → Db → Result (Unit {0}) × Db
unfolding move_cursor find_cursor with_write
ack device_id seq now db =
    if ltb_ℤ seq (pos 0) || ltb_ℤ (pos (head_seq db)) seq
    then (err future_cursor, db)
    else (let c : Cursor = record {
      device_id = device_id;
      last_ack_seq = pos_part seq;
      last_ack_at = now;
    } in
        with_write (move_cursor c (find_cursor db device_id)) db)

-- What a device has acknowledged so far.
abbrev seq_of : Option Cursor → ℕ
seq_of none = 0
seq_of (some c) = c.last_ack_seq

abbrev pub acked : Db → String → ℕ
acked db device_id = seq_of (find_cursor db device_id)

acked_upserted : (c : Cursor) (db : Db) → acked (upsert_cursor c db) c.device_id ≡ c.last_ack_seq
unfolding upsert_cursor find_cursor
acked_upserted c db =
    ap seq_of (
      find_row-upsert (λ (x : Cursor). x.device_id == c.device_id)
        (λ (x : Cursor). record x { last_ack_seq = c.last_ack_seq; last_ack_at = c.last_ack_at }) c
        db.cursors (λ x. refl) (eq_refl c.device_id))
    ∙ merged_seq (find_row (λ (x : Cursor). x.device_id == c.device_id) db.cursors)
  where
    merged_seq :
        (t : Option Cursor)
        → (merged
            (λ (x : Cursor). record x {
              last_ack_seq = c.last_ack_seq;
              last_ack_at = c.last_ack_at;
            })
            c
            t).last_ack_seq
          ≡ c.last_ack_seq
    merged_seq none = refl
    merged_seq (some x) = refl

moved :
    (c : Cursor) (db : Db) (t : Option Cursor)
    → find_cursor db c.device_id ≡ t
    → ((with_write (move_cursor c t) db).0 ≡ ok tt)
      × (acked (with_write (move_cursor c t) db).1 c.device_id ≡ max c.last_ack_seq (seq_of t))
unfolding with_write move_cursor
moved c db none h = (refl, ground (arith, acked_upserted c db))
moved c db (some old) h = elim (Bool-cases (ltb c.last_ack_seq old.last_ack_seq)) [
  | inl back ↦ rw back (refl, ground (arith, h))
  | inr on ↦ rw on (refl, ground (arith, acked_upserted c db))
]

-- A cursor up to the head is acknowledged, and then the device has acknowledged the larger of it and
-- what it had acknowledged before: an acknowledgement never moves backwards.
pub ack_keeps_maximum :
    (device_id : String) (s now : ℕ) (db : Db)
    → s ≤ head_seq db
    → ((ack device_id (pos s) now db).0 ≡ ok tt)
      × (acked (ack device_id (pos s) now db).1 device_id ≡ max s (acked db device_id))
unfolding ack
ack_keeps_maximum device_id s now db h =
    let fits : (ltb_ℤ (pos s) (pos 0) || ltb_ℤ (pos (head_seq db)) (pos s)) ≡ false =
      ground arith in
    rw fits (
      moved (record { device_id = device_id; last_ack_seq = s; last_ack_at = now }) db
        (find_cursor db device_id) refl)
