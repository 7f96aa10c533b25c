-- ===== src/Integrity/Compaction/Laws.antt =====
-- What the compaction of tombstones keeps (internal/integrity/gc.go).
use nubilo.Prelude.{
  ℕ, ◌≡◌, ◌≢◌, ◌≤◌, refl, ap, ◌∙◌, String, Bool, true, not, ◌&&◌, Option, none, some, List, [], ◌∷◌,
  ◌==◌, arith, inl, inr, Bool-cases, ltb, find_row, select, map, Every, Every-mono, if◌then◌else◌,
}
use nubilo.Identity.Device.{Device}
use nubilo.Store.{Db, Object, Entry, is_null}
use nubilo.Sync.Ack.{acked}
use nubilo.Sync.Changes.{max_seq, head_seq}
use nubilo.Sync.Push.{find_object}
use nubilo.Integrity.Compaction.{
  sync_devices, min_loop, min_sync_ack, rows_of, settled, compactable_tombstones, delete_tombstone,
  delete_tombstones, compact, or_head,
}

-- The rows past a cursor.
abbrev pub unread : ℕ → List Entry → List Entry
unread a es = select (λ (e : Entry). ltb a e.seq) es

max_seq-fewer :
    (p q : Entry → Bool) (es : List Entry)
    → max_seq (select p (select q es)) ≤ max_seq (select p es)
unfolding max_seq select
max_seq-fewer p q [] = omega arith
max_seq-fewer p q (e ∷ es) =
    let ih = max_seq-fewer p q es in
    elim (Bool-cases (q e)) [
      | inl is ↦ ground (arith, is, ih)
      | inr isnt ↦ ground (arith, isnt, ih)
    ]

unread-removed :
    (a : ℕ) (id : String) (es : List Entry)
    → max_seq (rows_of es id) ≤ a
    → unread a (select (λ (e : Entry). not (e.object_id == id)) es) ≡ unread a es
unfolding max_seq select rows_of
unread-removed a id [] h = refl
unread-removed a id (e ∷ es) h = elim (Bool-cases (e.object_id == id)) [
  | inl is ↦ let ih = unread-removed a id es (ground (arith, is, h)) in ground (arith, is, ih, h)
  | inr isnt ↦ let ih = unread-removed a id es (ground (arith, isnt, h)) in ground (arith, isnt, ih)
]

-- Deleting tombstones whose rows are not past a cursor keeps the rows past it.
kept_unread :
    (a : ℕ) (ids : List String) (db : Db)
    → Every (λ id. max_seq (rows_of db.journal id) ≤ a) ids
    → unread a (delete_tombstones ids db).journal ≡ unread a db.journal
unfolding delete_tombstones delete_tombstone rows_of
kept_unread a [] db w = refl
kept_unread a (id ∷ ids) db w =
    let rest = delete_tombstone id db in
    let fewer =
      λ (k : String) (h : max_seq (rows_of db.journal k) ≤ a). still_old a id k db.journal h in
    kept_unread a ids rest (Every-mono _ _ ids fewer w.1) ∙ unread-removed a id db.journal w.0
  where
    still_old :
        (a : ℕ) (id k : String) (es : List Entry)
        → max_seq (rows_of es k) ≤ a
        → max_seq (rows_of (select (λ (e : Entry). not (e.object_id == id)) es) k) ≤ a
    still_old a id k es h = omega (
      arith,
      h,
      max_seq-fewer (λ (e : Entry). e.object_id == k) (λ (e : Entry). not (e.object_id == id)) es,
    )

min_loop-le :
    (db : Db) (k m : ℕ) (ds : List Device)
    → min_loop db (some k) ds ≡ some m
    → (m ≤ k) × Every (λ (d : Device). m ≤ acked db d.id) ds
unfolding min_loop
min_loop-le db k m [] h = (ground arith, tt)
min_loop-le db k m (d ∷ ds) h =
    let next = if ltb (acked db d.id) k then acked db d.id else k in
    let (low, every) = min_loop-le db next m ds h in (ground arith, (ground arith, every))

some_loop : (db : Db) (k : ℕ) (ds : List Device) → min_loop db (some k) ds ≢ none
unfolding min_loop
some_loop db k [] h = ground arith
some_loop db k (d ∷ ds) h = some_loop db (if ltb (acked db d.id) k then acked db d.id else k) ds h

min_sync_ack-le :
    (db : Db) → Every (λ (d : Device). min_sync_ack db ≤ acked db d.id) (sync_devices db)
unfolding min_sync_ack min_loop
min_sync_ack-le db = lowest (sync_devices db)
  where
    first :
        (k : ℕ) (t : Option ℕ) (ds : List Device)
        → min_loop db (some k) ds ≡ t
        → (or_head (head_seq db) t ≤ k)
          × Every (λ (d : Device). or_head (head_seq db) t ≤ acked db d.id) ds
    first k (some n) ds h = min_loop-le db k n ds h
    first k none ds h = absurd (some_loop db k ds h)

    lowest :
        (ds : List Device)
        → Every (λ (d : Device). or_head (head_seq db) (min_loop db none ds) ≤ acked db d.id) ds
    lowest [] = tt
    lowest (d ∷ ds) = first (acked db d.id) (min_loop db (some (acked db d.id)) ds) ds refl

old_tombstones :
    (db : Db) (m : ℕ) (os : List Object)
    → Every
        (λ id. max_seq (rows_of db.journal id) ≤ m)
        (map
          (λ (o : Object). o.id)
          (select (λ (o : Object). not (is_null o.deleted_at) && settled db m o.id) os))
unfolding select settled
old_tombstones db m [] = tt
old_tombstones db m (o ∷ os) = elim (Bool-cases (not (is_null o.deleted_at) && settled db m o.id)) [
  | inl is ↦ rw is (ground (arith, is), old_tombstones db m os)
  | inr isnt ↦ rw isnt (old_tombstones db m os)
]

-- The compaction waits for every device: for each device that is not revoked and syncs, the journal
-- rows past what it has acknowledged are the same after the compaction as before, so that it misses
-- no deletion.
pub compact_keeps_unread :
    (db : Db)
    → Every
        (λ (d : Device).
          unread (acked db d.id) (compact db).journal ≡ unread (acked db d.id) db.journal)
        (sync_devices db)
unfolding compact compactable_tombstones
compact_keeps_unread db =
    let m = min_sync_ack db in
    let ids = compactable_tombstones db m in
    Every-mono _ _ (sync_devices db)
      (λ (d : Device) (low : m ≤ acked db d.id). kept_unread (acked db d.id) ids db (
        Every-mono _ _ ids
          (λ id (old : max_seq (rows_of db.journal id) ≤ m). omega (arith, old, low))
          (old_tombstones db m db.objects)))
      (min_sync_ack-le db)

find_row-select :
    (p q : Object → Bool) (xs : List Object) (o : Object)
    → find_row p xs ≡ some o
    → q o ≡ true
    → find_row p (select q xs) ≡ some o
unfolding find_row select
find_row-select p q [] o h k = ground arith
find_row-select p q (x ∷ xs) o h k = elim (Bool-cases (p x)) [
  | inl is ↦
      let same : x ≡ o = ground (arith, h, is) in
      let stays : q x ≡ true = ap q same ∙ k in ground (arith, h, is, stays)
  | inr isnt ↦
      let ih = find_row-select p q xs o (ground (arith, h, isnt)) k in
      elim (Bool-cases (q x)) [
        | inl in_it ↦ ground (arith, isnt, ih, in_it)
        | inr out ↦ ground (arith, isnt, ih, out)
      ]
]

live_stays :
    (ids : List String) (db : Db) (id : String) (o : Object)
    → find_object db id ≡ some o
    → is_null o.deleted_at ≡ true
    → find_object (delete_tombstones ids db) id ≡ some o
unfolding delete_tombstones delete_tombstone find_object
live_stays [] db id o f live = f
live_stays (k ∷ ids) db id o f live =
    live_stays ids (delete_tombstone k db) id o
      (find_row-select (λ (x : Object). x.id == id)
        (λ (x : Object). not (x.id == k && not (is_null x.deleted_at))) db.objects o f
        (ground (arith, live)))
      live

-- The compaction keeps every live object: the same row is found under its id.
pub compact_keeps_live :
    (db : Db) (id : String) (o : Object)
    → find_object db id ≡ some o
    → is_null o.deleted_at ≡ true
    → find_object (compact db) id ≡ some o
unfolding compact
compact_keeps_live db id o f live =
    live_stays (compactable_tombstones db (min_sync_ack db)) db id o f live
