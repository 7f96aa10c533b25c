-- ===== src/Prelude/Sorted.antt =====
-- Lists whose keys grow strictly: what selecting, sorting and paging leave of them.
use nubilo.Prelude.Tests.{ltb, Bool-cases}
use nubilo.Prelude.Lists.{drop, select, insert_by, order_by}
use Prim.Native.Nat.{ℕ, zero, suc, ◌+◌, ◌≤◌, ◌<◌}
use mathlib.Core.Path.{◌≡◌, refl, ap, ◌∙◌}
use mathlib.Core.Bool.{Bool}
use mathlib.Core.Logic.{inl, inr}
use mathlib.Core.List.{List, [], ◌∷◌, ◌++◌}
use native.Mathlib.Omega.{arith}

module _ {ℓ} {A : Type ℓ} where
  -- The keys grow strictly, above `lo` and up to `hi`.
  abbrev pub Ascending : (A → ℕ) → ℕ → ℕ → List A → Type 0
  Ascending key lo hi [] = lo ≤ hi
  Ascending key lo hi (x ∷ xs) = (lo < key x) × Ascending key (key x) hi xs

module _ {ℓ} {A : Type ℓ} (key : A → ℕ) where
  pub Ascending-append :
      (lo hi : ℕ) (xs : List A) (x : A)
      → Ascending key lo hi xs
      → key x ≡ hi + 1
      → Ascending key lo (key x) (xs ++ x ∷ [])
  Ascending-append lo hi [] x w h = omega arith
  Ascending-append lo hi (y ∷ ys) x w h = (w.0, Ascending-append (key y) hi ys x w.1 h)

  pub Ascending-lower :
      (lo lo' hi : ℕ) (xs : List A) → lo' ≤ lo → Ascending key lo hi xs → Ascending key lo' hi xs
  Ascending-lower lo lo' hi [] h w = omega arith
  Ascending-lower lo lo' hi (x ∷ xs) h w = (omega arith, w.1)

  pub Ascending-select :
      (p : A → Bool) (lo hi : ℕ) (xs : List A)
      → Ascending key lo hi xs
      → Ascending key lo hi (select p xs)
  unfolding select
  Ascending-select p lo hi [] w = w
  Ascending-select p lo hi (x ∷ xs) w = elim (Bool-cases (p x)) [
    | inl t ↦ rw t (w.0, Ascending-select p (key x) hi xs w.1)
    | inr f ↦ rw f (
        Ascending-lower (key x) lo hi (select p xs) (omega arith)
          (Ascending-select p (key x) hi xs w.1))
  ]

  pub Ascending-le : (lo hi : ℕ) (xs : List A) → Ascending key lo hi xs → lo ≤ hi
  Ascending-le lo hi [] w = w
  Ascending-le lo hi (x ∷ xs) w = omega (arith, Ascending-le (key x) hi xs w.1)

  insert_least :
      (hi : ℕ) (x : A) (xs : List A) → Ascending key (key x) hi xs → insert_by key x xs ≡ x ∷ xs
  unfolding insert_by
  insert_least hi x [] w = refl
  insert_least hi x (y ∷ ys) w = ground arith

  -- A table in order is its own sorted copy.
  pub order_by-Ascending : (lo hi : ℕ) (xs : List A) → Ascending key lo hi xs → order_by key xs ≡ xs
  unfolding order_by
  order_by-Ascending lo hi [] w = refl
  order_by-Ascending lo hi (x ∷ xs) w =
      ap (insert_by key x) (order_by-Ascending (key x) hi xs w.1) ∙ insert_least hi x xs w.1

  -- What lies past a key.
  abbrev pub past : ℕ → List A → List A
  past s = select (λ x. ltb s (key x))

  pub past-past : (s t : ℕ) (xs : List A) → s ≤ t → past t (past s xs) ≡ past t xs
  unfolding select
  past-past s t [] h = refl
  past-past s t (x ∷ xs) h = ground (arith, past-past s t xs h)

  pub past-all : (s hi : ℕ) (xs : List A) → Ascending key s hi xs → past s xs ≡ xs
  unfolding select
  past-all s hi [] w = refl
  past-all s hi (x ∷ xs) w =
      ground (arith, past-all s hi xs (Ascending-lower (key x) s hi xs (omega arith) w.1))

  -- The key of the last of the first `n`, or `s` if there is none.
  abbrev pub last_key : ℕ → ℕ → List A → ℕ
  last_key s zero xs = s
  last_key s (suc n) [] = s
  last_key s (suc n) (x ∷ xs) = last_key (key x) n xs

  pub last_key-le :
      (s hi n : ℕ) (xs : List A)
      → Ascending key s hi xs
      → (s ≤ last_key s n xs) × (last_key s n xs ≤ hi)
  last_key-le s hi zero xs w = (omega arith, Ascending-le s hi xs w)
  last_key-le s hi (suc n) [] w = (omega arith, w)
  last_key-le s hi (suc n) (x ∷ xs) w = omega (arith, last_key-le (key x) hi n xs w.1)

  -- Past the last of the first `n` lies all but the first `n`.
  pub past-last_key :
      (s hi n : ℕ) (xs : List A) → Ascending key s hi xs → past (last_key s n xs) xs ≡ drop n xs
  unfolding select
  past-last_key s hi zero xs w = past-all s hi xs w
  past-last_key s hi (suc n) [] w = refl
  past-last_key s hi (suc n) (x ∷ xs) w =
      ground (arith, past-last_key (key x) hi n xs w.1, last_key-le (key x) hi n xs w.1)

  pub past-Ascending :
      (lo s hi : ℕ) (xs : List A) → Ascending key lo hi xs → s ≤ hi → Ascending key s hi (past s xs)
  unfolding select
  past-Ascending lo s hi [] w h = h
  past-Ascending lo s hi (x ∷ xs) w h = elim (Bool-cases (ltb s (key x))) [
    | inl t ↦ rw t (ground arith, Ascending-select (λ y. ltb s (key y)) (key x) hi xs w.1)
    | inr f ↦ rw f (past-Ascending (key x) s hi xs w.1 h)
  ]
