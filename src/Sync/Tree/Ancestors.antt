-- ===== src/Sync/Tree/Ancestors.antt =====
-- The walk of IsAncestor (internal/syncengine/tree.go) ends, and what it finds.
use nubilo.Prelude.{
  ℕ, zero, suc, ◌≤◌, ◌<◌, ◌≡◌, ◌≢◌, refl, sym, subst, inl, inr, String, Bool, true, false, ◌||◌,
  some, List, [], ◌∷◌, ◌==◌, arith, eq_iff, eq_refl, Bool-cases, Option-cases, length, any_row,
  find_row, if◌then◌else◌,
}
use nubilo.Store.{Db, Collection}
use nubilo.Sync.Access.{find_collection}
use nubilo.Sync.Tree.{parent_of, climb, is_ancestor}

-- The collections that the walk has not passed.
unseen : List String → List Collection → ℕ
unseen seen [] = 0
unseen seen (c ∷ cs) =
    let rest = unseen seen cs in if any_row (λ s. s == c.id) seen then rest else suc rest

unseen_all : (seen : List String) (cs : List Collection) → unseen seen cs ≤ length cs
unfolding unseen
unseen_all seen [] = omega arith
unseen_all seen (c ∷ cs) = ground (arith, unseen_all seen cs)

unseen_more :
    (seen : List String) (x : String) (cs : List Collection) → unseen (x ∷ seen) cs ≤ unseen seen cs
unfolding unseen any_row
unseen_more seen x [] = omega arith
unseen_more seen x (c ∷ cs) = ground (arith, unseen_more seen x cs)

-- A collection that is passed for the first time.
unseen_less :
    (seen : List String) (x : String) (cs : List Collection) (c : Collection)
    → find_row (λ (y : Collection). y.id == x) cs ≡ some c
    → any_row (λ s. s == x) seen ≡ false
    → unseen (x ∷ seen) cs < unseen seen cs
unfolding unseen any_row find_row
unseen_less seen x [] c h fresh = ground arith
unseen_less seen x (y ∷ ys) c h fresh = elim (Bool-cases (y.id == x)) [
  | inl e ↦
      let own = (eq_iff y.id x).0 e in
      let new : any_row (λ s. s == y.id) seen ≡ false =
        subst (λ i. any_row (λ s. s == i) seen ≡ false) (sym own) fresh in
      let hit : (x == y.id) ≡ true = subst (λ i. (x == i) ≡ true) (sym own) (eq_refl x) in
      ground (arith, unseen_more seen x ys, new, hit)
  | inr e ↦ ground (arith, e, unseen_less seen x ys c (ground (arith, e, h)) fresh)
]

walk_ends :
    (fuel : ℕ) (db : Db) (id : String) (seen : List String) (cur : String)
    → unseen seen db.collections < fuel
    → (b : Bool) × (climb fuel db id seen cur ≡ some b)
unfolding climb find_collection
walk_ends zero db id seen cur h = absurd (omega (arith, h))
walk_ends (suc fuel) db id seen cur h = elim (Bool-cases (cur == "")) [
  | inl top ↦ rw (climb, top) (false, refl)
  | inr below ↦ elim (Bool-cases (cur == id || any_row (λ s. s == cur) seen)) [
    | inl hit ↦ rw (climb, below) (rw hit (true, refl))
    | inr new ↦ elim (Option-cases (find_collection db cur)) [
      | inl e ↦ rw (climb, below) (rw new (rw e (true, refl)))
      | inr (c, e) ↦
          let fresh : any_row (λ s. s == cur) seen ≡ false = ground (arith, new) in
          let less = unseen_less seen cur db.collections c e fresh in
          rw (climb, below)
            (rw new
              (rw e (walk_ends fuel db id (cur ∷ seen) (parent_of c) (omega (arith, less, h)))))
    ]
  ]
]

-- IsAncestor ends on any tree, cycles and missing parents included: the walk takes at most one step
-- more than there are collections.
pub is_ancestor_ends :
    (fuel : ℕ) (db : Db) (id maybe_child : String)
    → length db.collections < fuel
    → (b : Bool) × (is_ancestor fuel db id maybe_child ≡ some b)
unfolding is_ancestor
is_ancestor_ends fuel db id maybe_child h =
    walk_ends fuel db id [] maybe_child (omega (arith, h, unseen_all [] db.collections))

-- The way from a collection to the top, where it does not pass `id`.
pub data Avoids (db : Db) (id : String) : String → Type 0 where
  top : Avoids db id ""
  above :
      {cur : String} (c : Collection)
      → find_collection db cur ≡ some c
      → cur ≢ id
      → Avoids db id (parent_of c)
      → Avoids db id cur

pub climb-Avoids :
    (fuel : ℕ) (db : Db) (id : String) (seen : List String) (cur : String)
    → climb fuel db id seen cur ≡ some false
    → Avoids db id cur
unfolding climb
climb-Avoids zero db id seen cur h = absurd (ground (arith, h))
climb-Avoids (suc fuel) db id seen cur h = elim (Bool-cases (cur == "")) [
  | inl is_top ↦ subst (Avoids db id) (sym ((eq_iff cur "").0 is_top)) top
  | inr below ↦ elim (Bool-cases (cur == id || any_row (λ s. s == cur) seen)) [
    | inl hit ↦ absurd (ground (arith, below, hit, h))
    | inr new ↦ elim (Option-cases (find_collection db cur)) [
      | inl e ↦ absurd (ground (arith, below, new, e, h))
      | inr (c, e) ↦
          let apart : (cur == id) ≡ false = ground (arith, new) in
          above c e (λ own. ground (arith, apart, (eq_iff cur id).1 own))
            (climb-Avoids fuel db id (cur ∷ seen) (parent_of c) (ground (arith, below, new, e, h)))
    ]
  ]
]
