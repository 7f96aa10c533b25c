-- ===== src/Sync/Tree/Depth.antt =====
-- How deep a collection is in the tree, and that the recursive query of SetCollectionParent
-- (internal/syncengine/lookup.go) ends where every collection is somewhere below the top.
pub mod After
use nubilo.Prelude.{
  ℕ, zero, suc, ◌+◌, ◌≤◌, ◌<◌, ◌≡◌, refl, sym, ap, ◌∙◌, subst, inl, inr, String, Bool, true, ◌&&◌,
  none, some, List, [], ◌∷◌, ◌++◌, ◌==◌, arith, eq_refl, Option-cases, any_row, any_row-find_row,
  find_row,
}
use nubilo.Store.{Collection, sql_eq}
use nubilo.Sync.Tree.{parent_of, children_of, subtree}
use nubilo.Sync.Tree.Subtree.{
  Distinct, listed, under_ids, any_row_mono, children_rows, Distinct-row,
}
use nubilo.Sync.Tree.Trace.{none_under, some_under}

abbrev pub at_id : String → Collection → Bool
at_id id c = c.id == id

-- The number of collections on the way from an id to the top, itself included.
pub data Deep (rows : List Collection) : ℕ → String → Type 0 where
  at_top : Deep rows 0 ""
  deeper :
      {n : ℕ} {cur : String} (c : Collection)
      → find_row (at_id cur) rows ≡ some c
      → Deep rows n (parent_of c)
      → Deep rows (suc n) cur

-- The collection is at most n levels deep.
abbrev pub Within : ℕ → List Collection → String → Type 0
Within n rows cur = (m : ℕ) × (m ≤ n) × Deep rows m cur

module _ (rows : List Collection) (no_empty : find_row (at_id "") rows ≡ none) where
  Deep-unique : {m n : ℕ} {cur : String} → Deep rows m cur → Deep rows n cur → m ≡ n
  Deep-unique {m} {n} {cur} a b = unique a b refl
    where
      unique : {m n : ℕ} {x y : String} → Deep rows m x → Deep rows n y → x ≡ y → m ≡ n
      unique at_top at_top e = refl
      unique at_top (deeper c f r) e =
          absurd (ground (arith, no_empty, subst (λ i. find_row (at_id i) rows ≡ some c) (sym e) f))
      unique (deeper c f r) at_top e =
          absurd (ground (arith, no_empty, subst (λ i. find_row (at_id i) rows ≡ some c) e f))
      unique (deeper c f r) (deeper d g s) e =
          let same = subst (λ i. find_row (at_id i) rows ≡ some c) e f in
          let own : c ≡ d = ground (arith, same, g) in ap suc (unique r s (ap parent_of own))

  -- An id in the list of a level is at least as deep as the level.
  abbrev pub Reaches : ℕ → List String → Type 0
  Reaches k ids = (x : String) → listed x ids ≡ true → (m : ℕ) × (k ≤ m) × Deep rows m x

  module _ (d : Distinct rows) (n : ℕ)
      (all : (cur : String) (c : Collection)
        → find_row (at_id cur) rows ≡ some c
        → Within n rows cur) where
    pub Deep-le : {m : ℕ} {cur : String} → Deep rows m cur → m ≤ n
    Deep-le at_top = omega arith
    Deep-le {m} {cur} (deeper c f r) =
        let (k, few, way) = all cur c f in omega (arith, few, Deep-unique (deeper c f r) way)

    row_there :
        (x : String)
        → (p : Collection → Bool) → any_row (λ (y : Collection). y.id == x && p y) rows ≡ true
        → (c : Collection) × (find_row (at_id x) rows ≡ some c) × (p c ≡ true)
    row_there x p h = elim (Option-cases (find_row (at_id x) rows)) [
      | inr (c, e) ↦ (c, e, Distinct-row x p rows c d e h)
      | inl e ↦ absurd (
          let some_row =
            any_row_mono (λ (y : Collection). y.id == x && p y) (at_id x) rows
              (λ y k. ground (arith, k)) h in
          ground (arith, some_row, any_row-find_row (at_id x) rows e))
    ]

    children-Reaches :
        (k : ℕ) (ids : List String) → Reaches k ids → Reaches (suc k) (children_of ids rows)
    children-Reaches k ids reach x h =
        let (c, found, up) = row_there x (under_ids ids) (sym (children_rows x ids rows) ∙ h) in
        elim (Option-cases c.parent_id) [
          | inl e ↦
              let under = subst (λ q. any_row (sql_eq q) ids ≡ true) e up in
              absurd (ground (arith, under, none_under ids))
          | inr (t, e) ↦
              let under = subst (λ q. any_row (sql_eq q) ids ≡ true) e up in
              let (m, far, way) = reach t (sym (some_under t ids) ∙ under) in
              let to : t ≡ parent_of c = ground (arith, e) in
              (suc m, omega (arith, far), deeper c found (subst (Deep rows m) to way))
        ]

    -- The query from a level ends before the fuel does.
    pub subtree_ends_from :
        (fuel k : ℕ) (ids : List String)
        → Reaches k ids
        → k ≤ suc n
        → suc n < k + fuel
        → (found : List String) × (subtree fuel rows ids ≡ some found)
    unfolding subtree any_row
    subtree_ends_from zero k ids reach up enough = absurd (omega (arith, up, enough))
    subtree_ends_from (suc fuel) k [] reach up enough = ([], refl)
    subtree_ends_from (suc fuel) k (i ∷ is) reach up enough =
        let (m, below, way) = reach i (ground (arith, eq_refl i)) in
        let (found, e) =
          subtree_ends_from fuel (suc k) (children_of (i ∷ is) rows)
            (children-Reaches k (i ∷ is) reach) (omega (arith, below, Deep-le way))
            (omega (arith, enough)) in
        ((i ∷ is) ++ found, rw e refl)
