-- ===== src/Sync/Changes/Privacy.antt =====
-- What GetChanges may tell a user (internal/syncengine/engine.go).
use nubilo.Prelude.{
  ℕ, ◌+◌, ◌≡◌, ◌⊎◌, refl, sym, subst, inl, inr, String, true, ◌==◌, none, some, List, [], ◌∷◌,
  arith, eq_iff, Bool-cases, Option-cases, length, take, ltb, select, order_by, Every, Every-take,
  Every-select, Every-order_by,
}
use nubilo.Prelude.Int.{ℤ, pos, ltb_ℤ}
use nubilo.Store.{Db, Object, Entry, Collection}
use nubilo.Sync.Access.{user_scope, find_collection, scope_filter, access_filter}
use nubilo.Sync.Push.{find_object}
use nubilo.Sync.Changes.{
  Change, row_visible, after_cursor, journal_rows, can_read, shown, to_changes, page_size, page_of,
  get_changes, head_seq,
}

-- The user may read the collection: by the filter of the listings or by the check of the one.
abbrev pub MayRead : Db → String → String → Type 0
MayRead db user_id collection_id =
    ((c : Collection) × (find_collection db collection_id ≡ some c)
      × (access_filter db user_id c ≡ true))
    ⊎ (can_read db user_id collection_id ≡ true)

-- A change of a collection that the user may read, which shows its object's data only where the
-- user may read the collection that the object is in now.
pub record Permitted (db : Db) (user_id : String) (ch : Change) : Type 0 where
  pub object : Object
  pub found : find_object db ch.object_id ≡ some object
  pub may_know : MayRead db user_id ch.collection_id
  pub may_see :
      MayRead db user_id object.collection_id
      ⊎ ((ch.metadata ≡ none) × (ch.blob_id ≡ "") × (ch.size ≡ pos 0) × (ch.deleted ≡ true))

abbrev Visible : Db → String → Entry → Type 0
Visible db user_id e = MayRead db user_id e.collection_id

after_cursor-Visible :
    (db : Db) (user_id collection_id : String) (since : ℤ) (e : Entry)
    → after_cursor db (user_scope user_id) since collection_id e ≡ true
    → Visible db user_id e
unfolding after_cursor row_visible user_scope scope_filter
after_cursor-Visible db user_id collection_id since e h =
    elim (Option-cases (find_object db e.object_id)) [
      | inl lost ↦ absurd (ground (arith, lost))
      | inr (o, found) ↦ elim (Option-cases (find_collection db e.collection_id)) [
        | inl gone ↦ absurd (ground (arith, found, gone))
        | inr (c, there) ↦ inl (c, there, ground (arith, found, there))
      ]
    ]

shown-Permitted :
    (db : Db) (user_id : String) (e : Entry) (o : Object)
    → find_object db e.object_id ≡ some o
    → Visible db user_id e
    → Permitted db user_id (shown db (user_scope user_id) e o)
unfolding shown user_scope
shown-Permitted db user_id e o found may = elim (Bool-cases (o.collection_id == e.collection_id)) [
  | inl stays ↦
      let same : e.collection_id ≡ o.collection_id =
        ground (arith, eq_iff o.collection_id e.collection_id) in
      rw stays (record {
        object = o;
        found = found;
        may_know = may;
        may_see = inl (subst (MayRead db user_id) same may);
      })
  | inr moved ↦ elim (Bool-cases (can_read db user_id o.collection_id)) [
    | inl reads ↦
        rw (moved, reads)
          (record { object = o; found = found; may_know = may; may_see = inl (inr reads) })
    | inr hidden ↦
        rw (moved, hidden)
          (record {
            object = o;
            found = found;
            may_know = may;
            may_see = inr (refl, refl, refl, refl);
          })
  ]
]

to_changes-Every :
    (db : Db) (user_id : String) (es : List Entry)
    → Every (Visible db user_id) es
    → Every (Permitted db user_id) (to_changes db (user_scope user_id) es)
unfolding to_changes
to_changes-Every db user_id [] w = tt
to_changes-Every db user_id (e ∷ es) w =
    let sc = user_scope user_id in
    let every = Every (Permitted db user_id) in
    elim (Option-cases (find_object db e.object_id)) [
      | inl lost ↦
          let step : to_changes db sc (e ∷ es) ≡ to_changes db sc es = ground (arith, lost) in
          subst every (sym step) (to_changes-Every db user_id es w.1)
      | inr (o, found) ↦
          let step : to_changes db sc (e ∷ es) ≡ shown db sc e o ∷ to_changes db sc es =
            ground (arith, found) in
          subst every (sym step)
            (shown-Permitted db user_id e o found w.0, to_changes-Every db user_id es w.1)
    ]

page-Every :
    (P : Change → Type 0) (since : ℤ) (limit : ℕ) (cs : List Change)
    → Every P cs
    → Every P (page_of since limit cs).changes
unfolding page_of
page-Every P since limit cs w = elim (Bool-cases (ltb limit (length cs))) [
  | inl long ↦ rw long (Every-take P limit cs w)
  | inr short ↦ rw short w
]

-- Whatever a user asks GetChanges for, every change of the answer is in a collection that the user may
-- read; and where its object has since moved to a collection that the user may not read, the change
-- shows it as deleted, without its metadata, blob or size.
pub get_changes-Permitted :
    (db : Db) (user_id collection_id : String) (since limit : ℤ)
    → Every
        (Permitted db user_id)
        (get_changes db (user_scope user_id) since limit collection_id).changes
unfolding get_changes journal_rows
get_changes-Permitted db user_id collection_id since limit =
    elim (Bool-cases (ltb_ℤ (pos (head_seq db)) since)) [
      | inl ahead ↦ rw ahead tt
      | inr fits ↦
          let seen = after_cursor db (user_scope user_id) since collection_id in
          let rows = select seen db.journal in
          let ordered = order_by (λ (e : Entry). e.seq) rows in
          let first = take (page_size limit + 1) ordered in
          let every : Every (Visible db user_id) first =
            Every-take (Visible db user_id) (page_size limit + 1) ordered (
              Every-order_by (Visible db user_id) (λ (e : Entry). e.seq) rows
                (Every-select (Visible db user_id) seen db.journal
                  (after_cursor-Visible db user_id collection_id since))) in
          rw fits (
            page-Every (Permitted db user_id) since (page_size limit)
              (to_changes db (user_scope user_id) first) (to_changes-Every db user_id first every))
    ]
