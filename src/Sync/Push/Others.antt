-- ===== src/Sync/Push/Others.antt =====
-- What an item leaves alone: the objects of other ids, and the order of the journal.
use nubilo.Prelude.{
  ℕ, ◌+◌, ◌≡◌, ◌≢◌, refl, sym, ap, ◌∙◌, inl, inr, String, true, false, [], ◌∷◌, ◌++◌, ◌==◌, arith,
  eq_iff, text_ne, find_row, update, find_row-append_other, find_row-update_other,
}
use nubilo.Prelude.Sorted.{Ascending, Ascending-append}
use nubilo.Identity.Device.{Device}
use nubilo.Store.{Db, Object, Entry, PushResult}
use nubilo.Store.Env.{Env}
use nubilo.Store.Tx.{ok}
use nubilo.Sync.Types.{ChangeInput}
use nubilo.Sync.Push.{apply_one, u64, find_object, new_object, updated, tombstoned}
use nubilo.Sync.Push.Writes.{write_create_lem, write_update_lem, write_delete_lem}
use nubilo.Sync.Push.Outcome.{
  Outcome, refusing, conflicting, already_gone, creating, updating, deleting,
}
use nubilo.Sync.Push.Outcome.Reading.{apply_one_out}
use nubilo.Sync.Push.Safety.{validate_same}
use nubilo.Sync.Push.Journal.{journal_describes}
use native.Mathlib.Decide.{ℕ_discrete}
use mathlib.Core.Path.{subst₂}

apart_new : (key id : String) (o : Object) → o.id ≡ key → id ≢ key → (o.id == id) ≡ false
apart_new key id o same ne = text_ne (λ e. ne (sym e ∙ same))

apart_row :
    (key id : String) → id ≢ key → (o : Object) → (o.id == id) ≡ true → (o.id == key) ≡ false
apart_row key id ne o h = text_ne (λ e. ne (sym ((eq_iff o.id id).0 h) ∙ e))

module _ (env : Env) (dev : Device) (idem : String) (now : ℕ) (item : ChangeInput) (db : Db)
    (res : PushResult) (db' : Db) where
  others_changed :
      (f : Object → Object) (key id : String)
      → ((o : Object) → (f o).id ≡ o.id)
      → key ≡ item.object_id
      → db'.objects ≡ update (λ (o : Object). o.id == key) f db.objects
      → id ≢ item.object_id
      → find_object db' id ≡ find_object db id
  unfolding find_object
  others_changed f key id keep same objs ne =
      ap (find_row (λ (o : Object). o.id == id)) objs
      ∙ find_row-update_other (λ (o : Object). o.id == key) (λ (o : Object). o.id == id) f
          db.objects (λ o. ap (λ k. k == id) (keep o)) (apart_row key id (λ e. ne (e ∙ same)))

  others_out :
      (id : String)
      → Outcome env dev idem now item db res db'
      → id ≢ item.object_id
      → find_object db' id ≡ find_object db id
  unfolding find_object new_object updated tombstoned
  others_out id (refusing msg r refs) ne =
      ap (λ (d : Db). find_row (λ (o : Object). o.id == id) d.objects) refs.same
  others_out id (conflicting obj f r e) ne = ap (λ (d : Db). find_object d id) e
  others_out id (already_gone obj f o g r e) ne = ap (λ (d : Db). find_object d id) e
  others_out id (creating c sized cost mid t o f refs same q w) ne =
      let (r, e) = write_create_lem env dev idem now sized cost mid db' res w in
      let row = new_object env dev idem now sized cost in
      let objs : db'.objects ≡ db.objects ++ row ∷ [] = ground (arith, e, refs.same) in
      ap (find_row (λ (x : Object). x.id == id)) objs
      ∙ find_row-append_other (λ (x : Object). x.id == id) db.objects row
          (apart_new item.object_id id row same.object_id ne)
  others_out id (updating c obj sized cost mid t m o f l st refs same q w) ne =
      let (r, e) = write_update_lem env dev idem now sized cost obj mid db' res w in
      others_changed (updated env dev idem now sized cost (u64 (obj.revision + 1))) sized.object_id
        id (λ x. refl) same.object_id (ground (arith, e, refs.same)) ne
  others_out id (deleting c obj t m o f l st w) ne =
      let (r, e) = write_delete_lem env dev idem now item obj db db' res w in
      others_changed (tombstoned env dev idem now (u64 (obj.revision + 1))) item.object_id id
        (λ x. refl) refl (ground (arith, e)) ne

-- An item changes no object but its own: under every other id the same row is found, or none.
pub others_untouched :
    (env : Env) (dev : Device) (idem : String) (now : ℕ) (item : ChangeInput) (db : Db)
    (res : PushResult) (db' : Db) (id : String)
    → apply_one env dev idem now item db ≡ ok (res, db')
    → id ≢ item.object_id
    → find_object db' id ≡ find_object db id
others_untouched env dev idem now item db res db' id h ne =
    elim (apply_one_out env dev idem now item db res db' h) [
      | inl (msg, r, e) ↦ ap (λ (d : Db). find_object d id) e
      | inr (valid, v, out) ↦
          others_out env dev idem now valid db res db' id out
            (λ e. ne (e ∙ (validate_same env item valid v).0))
    ]

-- The sequence numbers of the journal grow strictly, and the counter is at or past its last row.
abbrev pub IsOrdered : Db → Type 0
IsOrdered db = Ascending (λ (e : Entry). e.seq) 0 db.last_seq db.journal

module _ (env : Env) (dev : Device) (idem : String) (now : ℕ) (item : ChangeInput) (db : Db)
    (res : PushResult) (db' : Db) where
  kept_out :
      Outcome env dev idem now item db res db'
      → db'.last_seq ≡ db.last_seq
      → db'.journal ≡ db.journal
  kept_out (refusing msg r refs) e = ap (λ (d : Db). d.journal) refs.same
  kept_out (conflicting obj f r e) s = ap (λ (d : Db). d.journal) e
  kept_out (already_gone obj f o g r e) s = ap (λ (d : Db). d.journal) e
  kept_out (creating c sized cost mid t o f refs same q w) s =
      let (r, e) = write_create_lem env dev idem now sized cost mid db' res w in
      absurd (ground (arith, e, s, refs.same))
  kept_out (updating c obj sized cost mid t m o f l st refs same q w) s =
      let (r, e) = write_update_lem env dev idem now sized cost obj mid db' res w in
      absurd (ground (arith, e, s, refs.same))
  kept_out (deleting c obj t m o f l st w) s =
      let (r, e) = write_delete_lem env dev idem now item obj db db' res w in
      absurd (ground (arith, e, s))

-- An item keeps the journal in order, with strictly growing sequence numbers up to the counter.
pub apply_one-IsOrdered :
    (env : Env) (dev : Device) (idem : String) (now : ℕ) (item : ChangeInput) (db : Db)
    (res : PushResult) (db' : Db)
    → apply_one env dev idem now item db ≡ ok (res, db')
    → IsOrdered db
    → IsOrdered db'
apply_one-IsOrdered env dev idem now item db res db' h w =
    elim (ℕ_discrete db'.last_seq db.last_seq) [
      | yes same ↦
          let kept : db'.journal ≡ db.journal =
            elim (apply_one_out env dev idem now item db res db' h) [
              | inl (msg, r, e) ↦ ap (λ (d : Db). d.journal) e
              | inr (valid, v, out) ↦ kept_out env dev idem now valid db res db' out same
            ] in
          subst₂ (λ hi es. Ascending (λ (e : Entry). e.seq) 0 hi es) (sym same) (sym kept) w
      | no ne ↦
          let j = journal_describes env dev idem now item db res db' h ne in
          subst₂ (λ hi es. Ascending (λ (e : Entry). e.seq) 0 hi es) (sym j.counter)
            (sym j.appended)
            (Ascending-append (λ (e : Entry). e.seq) 0 db.last_seq db.journal j.entry w j.next)
    ]
