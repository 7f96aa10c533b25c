-- ===== src/Sync/Tree/Depth/After.antt =====
-- How deep the collections are after the first UPDATE of SetCollectionParent
-- (internal/syncengine/lookup.go), behind the check of IsAncestor.
use nubilo.Prelude.{
  ℕ, suc, ◌+◌, ◌*◌, ◌≤◌, ◌<◌, ◌≡◌, refl, sym, ◌∙◌, subst, inl, inr, String, Bool, true, false,
  Option, none, some, List, [], ◌∷◌, arith, eq_iff, Bool-cases, Option-cases, any_row, find_row,
  find_row_passes, Every, if◌then◌else◌,
}
use nubilo.Store.{Db, Collection, or_empty}
use nubilo.Sync.Access.{find_collection}
use nubilo.Sync.Collections.{live_at}
use nubilo.Sync.Tree.{parent_of, subtree, set_parent}
use nubilo.Sync.Tree.Ancestors.{Avoids, top, above}
use nubilo.Sync.Tree.Moves.{found_updated, reparented}
use nubilo.Sync.Tree.Trace.{found_before, update-Distinct}
use nubilo.Sync.Tree.Subtree.{Distinct}
use nubilo.Sync.Tree.Depth.{Deep, at_top, deeper, Within, at_id, Reaches, subtree_ends_from}

found-Every :
    (P : Collection → Type 0) (p : Collection → Bool) (cs : List Collection) (c : Collection)
    → Every P cs
    → find_row p cs ≡ some c
    → P c
unfolding find_row
found-Every P p [] c w h = absurd (ground (arith, h))
found-Every P p (x ∷ xs) c w h = elim (Bool-cases (p x)) [
  | inl is ↦ subst P (ground (arith, is, h)) w.0
  | inr isnt ↦ found-Every P p xs c w.1 (ground (arith, isnt, h))
]

module _ (db : Db) (id : String) (to : Option String) (now n : ℕ) (d : Distinct db.collections)
    (no_empty : find_collection db "" ≡ none)
    (all : Every (λ (c : Collection). Within n db.collections c.id) db.collections) where
  abbrev rows : List Collection
  rows = reparented id to now db.collections

  pub all_before :
      (cur : String) (c : Collection)
      → find_row (at_id cur) db.collections ≡ some c
      → Within n db.collections cur
  all_before cur c h =
      subst (Within n db.collections)
        ((eq_iff c.id cur).0 (find_row_passes (at_id cur) db.collections c h))
        (found-Every (λ (x : Collection). Within n db.collections x.id) (at_id cur) db.collections c
          all h)

  -- The row of an id after the UPDATE of the parent.
  row_after :
      (b : Bool) (cur : String) (c : Collection)
      → live_at id c ≡ b
      → find_row (at_id cur) db.collections ≡ some c
      → (e : Collection) × (find_row (at_id cur) rows ≡ some e)
        × (parent_of e ≡ (if b then or_empty to else parent_of c))
  row_after true cur c is h = (
    set_parent to now c,
    subst (λ b. find_row (at_id cur) rows ≡ some (if b then set_parent to now c else c)) is
        (found_updated (at_id cur) (live_at id) (set_parent to now) db.collections c (λ y. refl) h),
    refl,
  )
  row_after false cur c is h = (
    c,
    subst (λ b. find_row (at_id cur) rows ≡ some (if b then set_parent to now c else c)) is
        (found_updated (at_id cur) (live_at id) (set_parent to now) db.collections c (λ y. refl) h),
    refl,
  )

  pub avoiding :
      {cur : String} → Avoids db id cur → (m : ℕ) × Deep db.collections m cur × Deep rows m cur
  unfolding find_collection
  avoiding top = (0, at_top, at_top)
  avoiding {cur} (above c e apart rest) =
      let (m, before, after) = avoiding rest in
      let own = (eq_iff c.id cur).0 (find_row_passes (at_id cur) db.collections c e) in
      elim (Bool-cases (live_at id c)) [
        | inl hit ↦ absurd (apart (sym own ∙ (eq_iff c.id id).0 (ground (arith, hit))))
        | inr miss ↦
            let (x, there, same) = row_after false cur c miss e in
            (suc m, deeper c e before, deeper x there (subst (Deep rows m) (sym same) after))
      ]

  module _ (j : ℕ) (few : j ≤ n) (up : Deep rows j (or_empty to)) where
    moved_Deep : {m : ℕ} {cur : String} → Deep db.collections m cur → Within (m + n + 1) rows cur
    moved_Deep at_top = (0, omega arith, at_top)
    moved_Deep {cur} (deeper c e rest) =
        let (m, bound, after) = moved_Deep rest in
        elim (Bool-cases (live_at id c)) [
          | inl hit ↦
              let (x, there, same) = row_after true cur c hit e in
              (suc j, omega (arith, few), deeper x there (subst (Deep rows j) (sym same) up))
          | inr miss ↦
              let (x, there, same) = row_after false cur c miss e in
              (suc m, omega (arith, bound), deeper x there (subst (Deep rows m) (sym same) after))
        ]

    all_after :
        (cur : String) (c : Collection)
        → find_row (at_id cur) rows ≡ some c
        → Within (2 * n + 1) rows cur
    all_after cur c h =
        let (x, e, same) =
          found_before (at_id cur) (live_at id) (set_parent to now) db.collections c (λ y. refl)
            h in
        let (m, bound, way) = all_before cur x e in
        let (k, more, after) = moved_Deep way in (k, omega (arith, bound, more), after)

    no_empty_after : find_row (at_id "") rows ≡ none
    unfolding find_collection
    no_empty_after = elim (Option-cases (find_row (at_id "") rows)) [
      | inl e ↦ e
      | inr (c, e) ↦
          let (x, there, same) =
            found_before (at_id "") (live_at id) (set_parent to now) db.collections c (λ y. refl)
              e in
          absurd (ground (arith, there, no_empty))
    ]

    pub subtree_ends :
        (fuel : ℕ) (c : Collection)
        → find_row (at_id id) db.collections ≡ some c
        → 2 * n + 2 < fuel
        → (ids : List String) × (subtree fuel rows (id ∷ []) ≡ some ids)
    unfolding any_row
    subtree_ends fuel c e enough =
        let (m, bound, way) = all_before id c e in
        let (k, more, after) = moved_Deep way in
        let first : Reaches rows no_empty_after 0 (id ∷ []) = λ x h.
          (k, omega arith, subst (Deep rows k) ((eq_iff id x).0 (ground (arith, h))) after) in
        subtree_ends_from rows no_empty_after
          (update-Distinct (live_at id) (set_parent to now) db.collections (λ y. refl) d)
          (2 * n + 1) all_after fuel 0 (id ∷ []) first (omega arith) (omega (arith, enough))
