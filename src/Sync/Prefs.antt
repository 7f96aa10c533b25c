-- ===== src/Sync/Prefs.antt =====
-- A user's display preference for a collection: GetPref and SetPref of
-- internal/syncengine/access.go.
use nubilo.Prelude.{
  ◌≡◌, ◌≢◌, refl, ap, ◌∙◌, String, Bool, true, false, ◌&&◌, ◌⊎◌, Option, none, some, ◌==◌, arith,
  eq_iff, eq_refl, find_row, upsert, merged, find_row-upsert, find_row-upsert_other, if◌then◌else◌,
}
use nubilo.Prelude.Int.{ℤ, pos, leb_ℤ}
use nubilo.Store.{Db, PrefRow, or_empty}

pub record Pref : Type 0 where
  pub color : String
  pub order : ℤ

abbrev is_zero : ℤ → Bool
is_zero n = leb_ℤ n (pos 0) && leb_ℤ (pos 0) n

unfoldable pub pref_key : String → String → PrefRow → Bool
pref_key user_id collection_id p = p.user_id == user_id && p.collection_id == collection_id

-- NullString.String and NullInt64.Int64; the zero Pref for no row.
unfoldable pub pref_of : Option PrefRow → Pref
pref_of none = record { color = ""; order = pos 0 }
pref_of (some p) = record {
  color = or_empty p.color;
  order = elim p.sort_order [ none ↦ pos 0 | some n ↦ n ];
}

unfoldable pub get_pref : Db → String → String → Pref
unfolding pref_of pref_key
get_pref db user_id collection_id = pref_of (find_row (pref_key user_id collection_id) db.prefs)

-- COALESCE(excluded.x, x)
abbrev kept_or {ℓ} : {A : Type ℓ} → Option A → Option A → Option A
kept_or none old = old
kept_or (some x) old = some x

unfoldable pub set_pref : String → String → Pref → Db → Db
unfolding pref_key
set_pref user_id collection_id p db =
    let color = if p.color == "" then none else some p.color in
    let order = if is_zero p.order then none else some p.order in
    record db {
      prefs =
          upsert (pref_key user_id collection_id)
            (λ (x : PrefRow). record x {
              color = kept_or color x.color;
              sort_order = kept_or order x.sort_order;
            })
            (record {
              user_id = user_id;
              collection_id = collection_id;
              color = color;
              sort_order = order;
            })
            db.prefs;
    }

-- A stored preference, changed by one that is set: an empty color and a zero order change nothing.
abbrev pub revised : Pref → Pref → Pref
revised p old = record {
  color = if p.color == "" then old.color else p.color;
  order = if is_zero p.order then old.order else p.order;
}

module _ (user_id collection_id : String) (p : Pref) (db : Db) where
  abbrev change : PrefRow → PrefRow
  change x = record x {
    color = kept_or (if p.color == "" then none else some p.color) x.color;
    sort_order = kept_or (if is_zero p.order then none else some p.order) x.sort_order;
  }

  abbrev fresh : PrefRow
  fresh = record {
    user_id = user_id;
    collection_id = collection_id;
    color = if p.color == "" then none else some p.color;
    sort_order = if is_zero p.order then none else some p.order;
  }

  pref_merged :
      (t : Option PrefRow) → pref_of (some (merged change fresh t)) ≡ revised p (pref_of t)
  unfolding pref_of
  pref_merged none = ground arith
  pref_merged (some x) = ground arith

  other_key :
      (u k : String) (x : PrefRow)
      → (u ≢ user_id) ⊎ (k ≢ collection_id)
      → pref_key u k x ≡ true
      → pref_key user_id collection_id x ≡ false
  unfolding pref_key
  other_key u k x apart is = ground (
    arith,
    is,
    apart,
    eq_iff x.user_id u,
    eq_iff x.collection_id k,
    eq_iff x.user_id user_id,
    eq_iff x.collection_id collection_id,
  )

  -- A preference that is set is read back, and a part that was left empty reads as before.
  pub get_pref-set_pref :
      get_pref (set_pref user_id collection_id p db) user_id collection_id
      ≡ revised p (get_pref db user_id collection_id)
  unfolding get_pref set_pref pref_key
  get_pref-set_pref =
      ap pref_of (
        find_row-upsert (pref_key user_id collection_id) change fresh db.prefs (λ x. refl)
          (ground (arith, eq_refl user_id, eq_refl collection_id)))
      ∙ pref_merged (find_row (pref_key user_id collection_id) db.prefs)

  -- Setting a preference changes no other one: of another user, or for another collection.
  pub get_pref-set_pref_other :
      (u k : String)
      → (u ≢ user_id) ⊎ (k ≢ collection_id)
      → get_pref (set_pref user_id collection_id p db) u k ≡ get_pref db u k
  unfolding get_pref set_pref pref_key
  get_pref-set_pref_other u k apart = ap pref_of (
      find_row-upsert_other (pref_key user_id collection_id) (pref_key u k) change fresh db.prefs
        (λ x. refl) (λ x is. other_key u k x apart is)
        (ground (arith, apart, eq_iff user_id u, eq_iff collection_id k)))
