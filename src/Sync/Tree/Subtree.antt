-- ===== src/Sync/Tree/Subtree.antt =====
-- What the recursive query of SetCollectionParent (internal/syncengine/lookup.go) finds.
use nubilo.Prelude.{
  ℕ, zero, suc, ◌≡◌, ◌⊎◌, refl, sym, ◌∙◌, subst, inl, inr, String, Bool, true, false, ◌&&◌, some,
  List, [], ◌∷◌, ◌++◌, ◌==◌, arith, eq_iff, Bool-cases, Option-cases, any_row, find_row, select,
}
use nubilo.Store.{Collection, sql_eq}
use nubilo.Sync.Tree.{children_of, subtree}

abbrev pub listed : String → List String → Bool
listed x ids = any_row (λ s. s == x) ids

-- The parent of the row is among the ids.
abbrev pub under_ids : List String → Collection → Bool
under_ids ids c = any_row (sql_eq c.parent_id) ids

-- No two collections have one id.
abbrev pub Distinct : List Collection → Type 0
Distinct [] = Unit
Distinct (c ∷ cs) = (any_row (λ (x : Collection). x.id == c.id) cs ≡ false) × Distinct cs

any_row-left :
    {A : Type 0} (p : A → Bool) (xs ys : List A) → any_row p xs ≡ true → any_row p (xs ++ ys) ≡ true
unfolding any_row
any_row-left p [] ys h = ground arith
any_row-left p (x ∷ xs) ys h = ground (arith, any_row-left p xs ys)

any_row-right :
    {A : Type 0} (p : A → Bool) (xs ys : List A) → any_row p ys ≡ true → any_row p (xs ++ ys) ≡ true
unfolding any_row
any_row-right p [] ys h = h
any_row-right p (x ∷ xs) ys h = ground (arith, any_row-right p xs ys h)

any_row-parts :
    {A : Type 0} (p : A → Bool) (xs ys : List A)
    → any_row p (xs ++ ys) ≡ true
    → (any_row p xs ≡ true) ⊎ (any_row p ys ≡ true)
unfolding any_row
any_row-parts p [] ys h = inr h
any_row-parts p (x ∷ xs) ys h = elim (Bool-cases (p x)) [
  | inl is ↦ inl (ground (arith, is))
  | inr isnt ↦ elim (any_row-parts p xs ys (ground (arith, isnt, h))) [
    | inl a ↦ inl (ground (arith, a))
    | inr b ↦ inr b
  ]
]

pub any_row_mono :
    {A : Type 0} (p q : A → Bool) (xs : List A)
    → ((x : A) → p x ≡ true → q x ≡ true)
    → any_row p xs ≡ true
    → any_row q xs ≡ true
unfolding any_row
any_row_mono p q [] f h = h
any_row_mono p q (x ∷ xs) f h = ground (arith, f x, any_row_mono p q xs f)

-- The row with the id x and its parent among `ids`.
abbrev pub linked : String → List String → Collection → Bool
linked x ids c = c.id == x && under_ids ids c

pub children_rows :
    (x : String) (ids : List String) (cs : List Collection)
    → listed x (children_of ids cs) ≡ any_row (linked x ids) cs
unfolding children_of any_row select
children_rows x ids [] = refl
children_rows x ids (c ∷ cs) = ground (arith, children_rows x ids cs)

linked-left :
    (x : String) (ids more : List String) (cs : List Collection)
    → any_row (linked x ids) cs ≡ true
    → any_row (linked x (ids ++ more)) cs ≡ true
linked-left x ids more cs h =
    any_row_mono (linked x ids) (linked x (ids ++ more)) cs
      (λ c k. ground (arith, k, any_row-left (sql_eq c.parent_id) ids more)) h

linked-right :
    (x : String) (more ids : List String) (cs : List Collection)
    → any_row (linked x ids) cs ≡ true
    → any_row (linked x (more ++ ids)) cs ≡ true
linked-right x more ids cs h =
    any_row_mono (linked x ids) (linked x (more ++ ids)) cs
      (λ c k. ground (arith, k, any_row-right (sql_eq c.parent_id) more ids)) h

linked_one :
    (x : String) (ls rs : List String) (c : Collection)
    → linked x (ls ++ rs) c ≡ true
    → (linked x ls c ≡ true) ⊎ (linked x rs c ≡ true)
linked_one x ls rs c h =
    let own : (c.id == x) ≡ true = ground (arith, h) in
    elim (any_row-parts (sql_eq c.parent_id) ls rs (ground (arith, h))) [
      | inl a ↦ inl (ground (arith, own, a))
      | inr b ↦ inr (ground (arith, own, b))
    ]

linked-parts :
    (x : String) (ls rs : List String) (cs : List Collection)
    → any_row (linked x (ls ++ rs)) cs ≡ true
    → (any_row (linked x ls) cs ≡ true) ⊎ (any_row (linked x rs) cs ≡ true)
unfolding any_row
linked-parts x ls rs [] h = inl h
linked-parts x ls rs (c ∷ cs) h = elim (Bool-cases (linked x (ls ++ rs) c)) [
  | inl is ↦ elim (linked_one x ls rs c is) [
    | inl a ↦ inl (ground (arith, a))
    | inr b ↦ inr (ground (arith, b))
  ]
  | inr isnt ↦ elim (linked-parts x ls rs cs (ground (arith, isnt, h))) [
    | inl a ↦ inl (ground (arith, a))
    | inr b ↦ inr (ground (arith, b))
  ]
]

subtree_step :
    (fuel : ℕ) (cs : List Collection) (i : String) (is found : List String)
    → subtree (suc fuel) cs (i ∷ is) ≡ some found
    → (below : List String) × (subtree fuel cs (children_of (i ∷ is) cs) ≡ some below)
      × ((i ∷ is) ++ below ≡ found)
unfolding subtree
subtree_step fuel cs i is found h =
    elim (Option-cases (subtree fuel cs (children_of (i ∷ is) cs))) [
      | inl e ↦ absurd (ground (arith, e, h))
      | inr (below, e) ↦ (below, e, ground (arith, e, h))
    ]

subtree_empty :
    (fuel : ℕ) (cs : List Collection) (found : List String)
    → subtree (suc fuel) cs [] ≡ some found
    → [] ≡ found
unfolding subtree
subtree_empty fuel cs found h = ground (arith, h)

pub subtree_includes :
    (fuel : ℕ) (cs : List Collection) (ids found : List String) (x : String)
    → subtree fuel cs ids ≡ some found
    → listed x ids ≡ true
    → listed x found ≡ true
unfolding subtree
subtree_includes zero cs ids found x h w = absurd (ground (arith, h))
subtree_includes (suc fuel) cs [] found x h w =
    subst (λ l. listed x l ≡ true) (subtree_empty fuel cs found h) w
subtree_includes (suc fuel) cs (i ∷ is) found x h w =
    let (below, e, all) = subtree_step fuel cs i is found h in
    subst (λ l. listed x l ≡ true) all (any_row-left (λ s. s == x) (i ∷ is) below w)

nothing_linked : (x : String) (cs : List Collection) → any_row (linked x []) cs ≡ true → ⊥
unfolding any_row
nothing_linked x [] h = ground arith
nothing_linked x (c ∷ cs) h = ground (arith, nothing_linked x cs)

-- Every id but the first ones is that of a row whose parent was found too.
pub subtree_sound :
    (fuel : ℕ) (cs : List Collection) (ids found : List String) (x : String)
    → subtree fuel cs ids ≡ some found
    → listed x found ≡ true
    → (listed x ids ≡ true) ⊎ (any_row (linked x found) cs ≡ true)
unfolding subtree
subtree_sound zero cs ids found x h w = absurd (ground (arith, h))
subtree_sound (suc fuel) cs [] found x h w =
    inl (subst (λ l. listed x l ≡ true) (sym (subtree_empty fuel cs found h)) w)
subtree_sound (suc fuel) cs (i ∷ is) found x h w =
    let (below, e, all) = subtree_step fuel cs i is found h in
    let up : any_row (linked x ((i ∷ is) ++ below)) cs ≡ true → any_row (linked x found) cs ≡ true =
      λ k. subst (λ l. any_row (linked x l) cs ≡ true) all k in
    elim (any_row-parts (λ s. s == x) (i ∷ is) below (subst (λ l. listed x l ≡ true) (sym all) w)) [
      | inl first ↦ inl first
      | inr deeper ↦ elim (subtree_sound fuel cs (children_of (i ∷ is) cs) below x e deeper) [
        | inl a ↦ inr (up (linked-left x (i ∷ is) below cs (sym (children_rows x (i ∷ is) cs) ∙ a)))
        | inr b ↦ inr (up (linked-right x (i ∷ is) below cs b))
      ]
    ]

-- A row whose parent was found was found too.
pub subtree_closed :
    (fuel : ℕ) (cs : List Collection) (ids found : List String) (x : String)
    → subtree fuel cs ids ≡ some found
    → any_row (linked x found) cs ≡ true
    → listed x found ≡ true
unfolding subtree
subtree_closed zero cs ids found x h w = absurd (ground (arith, h))
subtree_closed (suc fuel) cs [] found x h w = absurd (
    nothing_linked x cs
      (subst (λ l. any_row (linked x l) cs ≡ true) (sym (subtree_empty fuel cs found h)) w))
subtree_closed (suc fuel) cs (i ∷ is) found x h w =
    let (below, e, all) = subtree_step fuel cs i is found h in
    let up : listed x below ≡ true → listed x found ≡ true =
      λ k. subst (λ l. listed x l ≡ true) all (any_row-right (λ s. s == x) (i ∷ is) below k) in
    elim (linked-parts x (i ∷ is) below cs
      (subst (λ l. any_row (linked x l) cs ≡ true) (sym all) w)) [
        | inl a ↦ up (
            subtree_includes fuel cs (children_of (i ∷ is) cs) below x e
              (children_rows x (i ∷ is) cs ∙ a))
        | inr b ↦ up (subtree_closed fuel cs (children_of (i ∷ is) cs) below x e b)
      ]

-- With distinct ids a row with the id is the one that the lookup finds.
pub Distinct-row :
    (x : String) (p : Collection → Bool) (cs : List Collection) (c : Collection)
    → Distinct cs
    → find_row (λ (y : Collection). y.id == x) cs ≡ some c
    → any_row (λ (y : Collection). y.id == x && p y) cs ≡ true
    → p c ≡ true
unfolding find_row any_row
Distinct-row x p [] c d h w = ground arith
Distinct-row x p (y ∷ ys) c d h w = elim (Bool-cases (y.id == x)) [
  | inr miss ↦ Distinct-row x p ys c d.1 (ground (arith, miss, h)) (ground (arith, miss, w))
  | inl hit ↦ elim (Bool-cases (p y)) [
    | inl is ↦ subst (λ z. p z ≡ true) (ground (arith, hit, h)) is
    | inr isnt ↦
        let later : any_row (λ (z : Collection). z.id == x && p z) ys ≡ true =
          ground (arith, hit, isnt, w) in
        let twice =
          any_row_mono (λ (z : Collection). z.id == x && p z) (λ (z : Collection). z.id == x) ys
            (λ z k. ground (arith, k)) later in
        let once =
          subst (λ i. any_row (λ (z : Collection). z.id == i) ys ≡ false) ((eq_iff y.id x).0 hit)
            d.0 in
        absurd (ground (arith, once, twice))
  ]
]

pub found-row :
    (x : String) (p : Collection → Bool) (cs : List Collection) (c : Collection)
    → find_row (λ (y : Collection). y.id == x) cs ≡ some c
    → p c ≡ true
    → any_row (λ (y : Collection). y.id == x && p y) cs ≡ true
unfolding find_row any_row
found-row x p [] c h w = ground arith
found-row x p (y ∷ ys) c h w = elim (Bool-cases (y.id == x)) [
  | inr miss ↦ ground (arith, miss, found-row x p ys c (ground (arith, miss, h)) w)
  | inl hit ↦
      let same : y ≡ c = ground (arith, hit, h) in
      ground (arith, hit, subst (λ z. p z ≡ true) (sym same) w)
]
