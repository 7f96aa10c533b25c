-- ===== src/Prelude/Each.antt =====
-- A property of every row of a list, under the queries.
use Prim.Native.Nat.{ℕ, zero, suc}
use mathlib.Core.Path.{◌≡◌, subst}
use mathlib.Core.Logic.{inl, inr}
use mathlib.Core.Bool.{Bool, true, false}
use mathlib.Core.Option.{some}
use native.Mathlib.Omega.{arith}
use mathlib.Core.List.{List, [], ◌∷◌}
use nubilo.Prelude.Tests.{leb, Bool-cases}
use nubilo.Prelude.Lists.{take, find_row, update, select, insert_by, order_by}

module _ {ℓ} {A : Type ℓ} (P : A → Type 0) where
  abbrev pub Every : List A → Type 0
  Every [] = Unit
  Every (x ∷ xs) = P x × Every xs

  pub Every-take : (n : ℕ) (xs : List A) → Every xs → Every (take n xs)
  Every-take zero xs w = tt
  Every-take (suc n) [] w = tt
  Every-take (suc n) (x ∷ xs) w = (w.0, Every-take n xs w.1)

  -- The rows of a query pass its test.
  pub Every-select :
      (p : A → Bool) (xs : List A) → ((x : A) → p x ≡ true → P x) → Every (select p xs)
  unfolding select
  Every-select p [] f = tt
  Every-select p (x ∷ xs) f = elim (Bool-cases (p x)) [
    | inl is ↦ rw is (f x is, Every-select p xs f)
    | inr isnt ↦ rw isnt (Every-select p xs f)
  ]

  Every-insert_by :
      (key : A → ℕ) (x : A) (xs : List A) → P x → Every xs → Every (insert_by key x xs)
  unfolding insert_by
  Every-insert_by key x [] p w = (p, tt)
  Every-insert_by key x (y ∷ ys) p w = elim (Bool-cases (leb (key x) (key y))) [
    | inl is ↦ rw is (p, w)
    | inr isnt ↦ rw isnt (w.0, Every-insert_by key x ys p w.1)
  ]

  pub Every-order_by : (key : A → ℕ) (xs : List A) → Every xs → Every (order_by key xs)
  unfolding order_by
  Every-order_by key [] w = tt
  Every-order_by key (x ∷ xs) w =
      Every-insert_by key x (order_by key xs) w.0 (Every-order_by key xs w.1)

  -- What a lookup finds has the property.
  pub find_row-Every :
      (p : A → Bool) (xs : List A) (x : A) → Every xs → find_row p xs ≡ some x → P x
  unfolding find_row
  find_row-Every p [] x w h = ground arith
  find_row-Every p (y ∷ ys) x w h = elim (Bool-cases (p y)) [
    | inl is ↦ subst P (ground (arith, is, h)) w.0
    | inr isnt ↦ find_row-Every p ys x w.1 (ground (arith, isnt, h))
  ]

  pub Every-update :
      (p : A → Bool) (f : A → A) (xs : List A)
      → ((x : A) → P x → p x ≡ true → P (f x))
      → Every xs
      → Every (update p f xs)
  unfolding update
  Every-update p f [] g w = tt
  Every-update p f (x ∷ xs) g w = elim (Bool-cases (p x)) [
    | inl is ↦ rw is (g x w.0 is, Every-update p f xs g w.1)
    | inr isnt ↦ rw isnt (w.0, Every-update p f xs g w.1)
  ]

  -- A property that the update gives to the rows that it changes and that the others have anyway.
  pub update-Every :
      (p : A → Bool) (f : A → A) (xs : List A)
      → ((x : A) → p x ≡ true → P (f x))
      → ((x : A) → p x ≡ false → P x)
      → Every (update p f xs)
  unfolding update
  update-Every p f [] g k = tt
  update-Every p f (x ∷ xs) g k = elim (Bool-cases (p x)) [
    | inl is ↦ rw is (g x is, update-Every p f xs g k)
    | inr isnt ↦ rw isnt (k x isnt, update-Every p f xs g k)
  ]

module _ {ℓ} {A : Type ℓ} where
  pub Every-mono :
      (P Q : A → Type 0) (xs : List A) → ((x : A) → P x → Q x) → Every P xs → Every Q xs
  Every-mono P Q [] f w = tt
  Every-mono P Q (x ∷ xs) f w = (f x w.0, Every-mono P Q xs f w.1)
