-- ===== src/Sync/Changes/Order.antt =====
-- The rows that GetChanges reads, as one list of all that the caller may see, in order.
use nubilo.Prelude.{
  ℕ, zero, suc, ◌≤◌, ◌≡◌, refl, sym, ap, ◌∙◌, subst, inl, inr, String, Bool, true, ◌&&◌, some, List,
  [], ◌∷◌, arith, Bool-cases, Option-cases, take, ltb, select,
}
use nubilo.Prelude.Int.{pos, ltb_ℤ}
use nubilo.Prelude.Sorted.{Ascending, Ascending-lower, Ascending-select, order_by-Ascending, past}
use nubilo.Store.{Db, Entry, Object}
use nubilo.Sync.Access.{Scope}
use nubilo.Sync.Push.{find_object}
use nubilo.Sync.Push.Others.{IsOrdered}
use nubilo.Sync.Changes.{
  Change, row_visible, after_cursor, journal_rows, shown, to_changes, max_seq, head_seq,
}

-- Every change that the caller may see, of one collection or of all, in the order of the journal.
unfoldable pub all_changes : Db → Scope → String → List Change
all_changes db sc collection_id =
    to_changes db sc (select (row_visible db sc collection_id) db.journal)

abbrev pub change_seq : Change → ℕ
change_seq c = c.seq

pub seq-shown : (db : Db) (sc : Scope) (e : Entry) (o : Object) → (shown db sc e o).seq ≡ e.seq
unfolding shown
seq-shown db sc e o = ground arith

to_changes-past :
    (db : Db) (sc : Scope) (s : ℕ) (es : List Entry)
    → to_changes db sc (past (λ (e : Entry). e.seq) s es) ≡ past change_seq s (to_changes db sc es)
unfolding to_changes select
to_changes-past db sc s [] = refl
to_changes-past db sc s (e ∷ es) = elim (Option-cases (find_object db e.object_id)) [
  | inl gone ↦ ground (arith, gone, to_changes-past db sc s es)
  | inr (o, there) ↦ ground (arith, there, seq-shown db sc e o, to_changes-past db sc s es)
]

-- Every row has its object.
abbrev AllFound : Db → List Entry → Type 0
AllFound db [] = Unit
AllFound db (e ∷ es) = ((o : Object) × (find_object db e.object_id ≡ some o)) × AllFound db es

to_changes-take :
    (db : Db) (sc : Scope) (n : ℕ) (es : List Entry)
    → AllFound db es
    → to_changes db sc (take n es) ≡ take n (to_changes db sc es)
unfolding to_changes
to_changes-take db sc zero es all = refl
to_changes-take db sc (suc n) [] all = refl
to_changes-take db sc (suc n) (e ∷ es) all =
    ground (arith, all.0.1, to_changes-take db sc n es all.1)

visible_found :
    (db : Db) (sc : Scope) (collection_id : String) (e : Entry)
    → row_visible db sc collection_id e ≡ true
    → (o : Object) × (find_object db e.object_id ≡ some o)
unfolding row_visible
visible_found db sc collection_id e h = elim (Option-cases (find_object db e.object_id)) [
  | inl gone ↦ absurd (ground (arith, gone))
  | inr found ↦ found
]

select-AllFound :
    (db : Db) (p : Entry → Bool) (es : List Entry)
    → ((e : Entry) → p e ≡ true → (o : Object) × (find_object db e.object_id ≡ some o))
    → AllFound db (select p es)
unfolding select
select-AllFound db p [] keep = tt
select-AllFound db p (e ∷ es) keep = elim (Bool-cases (p e)) [
  | inl t ↦ rw t (keep e t, select-AllFound db p es keep)
  | inr f ↦ rw f (select-AllFound db p es keep)
]

past-AllFound :
    (db : Db) (s : ℕ) (es : List Entry)
    → AllFound db es
    → AllFound db (past (λ (e : Entry). e.seq) s es)
unfolding select
past-AllFound db s [] all = tt
past-AllFound db s (e ∷ es) all = elim (Bool-cases (ltb s e.seq)) [
  | inl t ↦ rw t (all.0, past-AllFound db s es all.1)
  | inr f ↦ rw f (past-AllFound db s es all.1)
]

to_changes-Ascending :
    (db : Db) (sc : Scope) (lo hi : ℕ) (es : List Entry)
    → Ascending (λ (e : Entry). e.seq) lo hi es
    → Ascending change_seq lo hi (to_changes db sc es)
unfolding to_changes
to_changes-Ascending db sc lo hi [] w = w
to_changes-Ascending db sc lo hi (e ∷ es) w =
    let rest = to_changes-Ascending db sc e.seq hi es w.1 in
    elim (Option-cases (find_object db e.object_id)) [
      | inl gone ↦
          let same : to_changes db sc (e ∷ es) ≡ to_changes db sc es = ground (arith, gone) in
          subst (Ascending change_seq lo hi) (sym same)
            (Ascending-lower change_seq e.seq lo hi (to_changes db sc es) (omega arith) rest)
      | inr (o, there) ↦
          let same : to_changes db sc (e ∷ es) ≡ shown db sc e o ∷ to_changes db sc es =
            ground (arith, there) in
          let seq = seq-shown db sc e o in
          subst (Ascending change_seq lo hi) (sym same) (
            omega (arith, seq),
            subst (λ k. Ascending change_seq k hi (to_changes db sc es)) (sym seq) rest,
          )
    ]

-- The head is a bound for the journal, and so for the changes.
Ascending-head :
    (lo hi top : ℕ) (es : List Entry)
    → Ascending (λ (e : Entry). e.seq) lo hi es
    → max_seq es ≤ top
    → lo ≤ top
    → Ascending (λ (e : Entry). e.seq) lo top es
unfolding max_seq
Ascending-head lo hi top [] w m h = h
Ascending-head lo hi top (e ∷ es) w m h =
    (w.0, Ascending-head e.seq hi top es w.1 (omega arith) (omega arith))

pub all_changes-Ascending :
    (db : Db) (sc : Scope) (collection_id : String)
    → IsOrdered db
    → Ascending change_seq 0 (head_seq db) (all_changes db sc collection_id)
unfolding all_changes head_seq
all_changes-Ascending db sc collection_id w =
    let seq = λ (e : Entry). e.seq in
    let bounded =
      Ascending-head 0 db.last_seq (max_seq db.journal) db.journal w (omega arith) (omega arith) in
    to_changes-Ascending db sc 0 (max_seq db.journal)
      (select (row_visible db sc collection_id) db.journal)
      (Ascending-select seq (row_visible db sc collection_id) 0 (max_seq db.journal) db.journal
        bounded)

select-both :
    (p : Entry → Bool) (s : ℕ) (es : List Entry)
    → select (λ e. ltb_ℤ (pos s) (pos e.seq) && p e) es
      ≡ past (λ (e : Entry). e.seq) s (select p es)
unfolding select
select-both p s [] = refl
select-both p s (e ∷ es) = ground (arith, select-both p s es)

-- The rows of the query, in a journal in order.
journal_rows-eq :
    (db : Db) (sc : Scope) (s : ℕ) (collection_id : String)
    → IsOrdered db
    → journal_rows db sc (pos s) collection_id
      ≡ past (λ (e : Entry). e.seq) s (select (row_visible db sc collection_id) db.journal)
unfolding journal_rows after_cursor
journal_rows-eq db sc s collection_id w =
    let seq = λ (e : Entry). e.seq in
    order_by-Ascending seq 0 db.last_seq
      (select (after_cursor db sc (pos s) collection_id) db.journal)
      (Ascending-select seq (after_cursor db sc (pos s) collection_id) 0 db.last_seq db.journal w)
    ∙ select-both (row_visible db sc collection_id) s db.journal

-- The first `m` rows of the query are the first `m` of the visible changes past the cursor.
pub first_rows :
    (db : Db) (sc : Scope) (s m : ℕ) (collection_id : String)
    → IsOrdered db
    → to_changes db sc (take m (journal_rows db sc (pos s) collection_id))
      ≡ take m (past change_seq s (all_changes db sc collection_id))
unfolding all_changes
first_rows db sc s m collection_id w =
    let seq = λ (e : Entry). e.seq in
    let seen = select (row_visible db sc collection_id) db.journal in
    ap (λ es. to_changes db sc (take m es)) (journal_rows-eq db sc s collection_id w)
    ∙ to_changes-take db sc m (past seq s seen) (
        past-AllFound db s seen (
          select-AllFound db (row_visible db sc collection_id) db.journal
            (visible_found db sc collection_id)))
    ∙ ap (take m) (to_changes-past db sc s seen)
