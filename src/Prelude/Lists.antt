-- ===== src/Prelude/Lists.antt =====
-- Tables as lists of rows: the queries and updates that the program's SQL uses, and their laws.
use Prim.Native.Nat.{◌-◌, ℕ, zero, suc, ◌+◌}
use mathlib.Core.Path.{ap, ◌≡◌, refl}
use mathlib.Core.Bool.{Bool, true, false, ◌||◌}
use mathlib.Core.Option.{Option, none, some}
use mathlib.Core.List.{List, [], ◌∷◌, ◌++◌}
use native.Mathlib.Omega.{arith}
use nubilo.Prelude.Tests.{if◌then◌else◌, leb, ltb}

module _ {ℓ} {A : Type ℓ} where
  abbrev pub length : List A → ℕ
  length [] = 0
  length (x ∷ xs) = suc (length xs)

  abbrev pub take : ℕ → List A → List A
  take zero xs = []
  take (suc n) [] = []
  take (suc n) (x ∷ xs) = x ∷ take n xs

  abbrev pub drop : ℕ → List A → List A
  drop zero xs = xs
  drop (suc n) [] = []
  drop (suc n) (x ∷ xs) = drop n xs

  -- SELECT … LIMIT 1, QueryRow: the first row that passes.
  unfoldable pub find_row : (A → Bool) → List A → Option A
  find_row p [] = none
  find_row p (x ∷ xs) = if p x then some x else find_row p xs

  -- SELECT COUNT(*) … > 0, EXISTS.
  unfoldable pub any_row : (A → Bool) → List A → Bool
  any_row p [] = false
  any_row p (x ∷ xs) = p x || any_row p xs

  -- SELECT … WHERE.
  unfoldable pub select : (A → Bool) → List A → List A
  select p [] = []
  select p (x ∷ xs) = let rest = select p xs in if p x then x ∷ rest else rest

  -- UPDATE … SET … WHERE.
  unfoldable pub update : (A → Bool) → (A → A) → List A → List A
  update p f [] = []
  update p f (x ∷ xs) = (if p x then f x else x) ∷ update p f xs

  pub length-append : (xs ys : List A) → length (xs ++ ys) ≡ length xs + length ys
  length-append [] ys = omega arith
  length-append (x ∷ xs) ys = omega (arith, length-append xs ys)

  pub find_row_passes : (p : A → Bool) (xs : List A) (x : A) → find_row p xs ≡ some x → p x ≡ true
  unfolding find_row
  find_row_passes p [] x h = ground arith
  find_row_passes p (y ∷ ys) x h = ground (arith, find_row_passes p ys x)

  -- A query finds a row exactly when some row passes.
  pub any_row-find_row : (p : A → Bool) (xs : List A) → find_row p xs ≡ none → any_row p xs ≡ false
  unfolding find_row any_row
  any_row-find_row p [] h = refl
  any_row-find_row p (x ∷ xs) h = ground (arith, any_row-find_row p xs)

  -- ORDER BY a number: an insertion sort, which keeps the table's order among equal keys.
  unfoldable pub insert_by : (A → ℕ) → A → List A → List A
  insert_by key x [] = x ∷ []
  insert_by key x (y ∷ ys) =
      let rest = y ∷ insert_by key x ys in if leb (key x) (key y) then x ∷ y ∷ ys else rest

  unfoldable pub order_by : (A → ℕ) → List A → List A
  unfolding insert_by
  order_by key [] = []
  order_by key (x ∷ xs) = insert_by key x (order_by key xs)

module _ {ℓ} {A : Type ℓ} where
  pub find_row-append :
      (p : A → Bool) (xs : List A) (x : A)
      → find_row p xs ≡ none
      → find_row p (xs ++ x ∷ []) ≡ (if p x then some x else none)
  unfolding find_row
  find_row-append p [] x h = refl
  find_row-append p (y ∷ ys) x h = ground (arith, find_row-append p ys x)

  pub find_row-append_found :
      (p : A → Bool) (xs : List A) (x y : A)
      → find_row p xs ≡ some y
      → find_row p (xs ++ x ∷ []) ≡ some y
  unfolding find_row
  find_row-append_found p [] x y h = ground arith
  find_row-append_found p (z ∷ zs) x y h = ground (arith, find_row-append_found p zs x y)

  -- A row that does not pass does not matter.
  pub find_row-append_other :
      (p : A → Bool) (xs : List A) (x : A) → p x ≡ false → find_row p (xs ++ x ∷ []) ≡ find_row p xs
  unfolding find_row
  find_row-append_other p [] x h = ground arith
  find_row-append_other p (y ∷ ys) x h = ground (arith, find_row-append_other p ys x h)

  pub find_row-update_self :
      (p : A → Bool) (f : A → A) (xs : List A) (x : A)
      → ((y : A) → p (f y) ≡ p y)
      → find_row p xs ≡ some x
      → find_row p (update p f xs) ≡ some (f x)
  unfolding find_row update
  find_row-update_self p f [] x keep h = ground arith
  find_row-update_self p f (y ∷ ys) x keep h =
      ground (arith, keep y, find_row-update_self p f ys x keep)

  -- Rows of another key stay as they are.
  pub find_row-update_other :
      (p q : A → Bool) (f : A → A) (xs : List A)
      → ((y : A) → q (f y) ≡ q y)
      → ((y : A) → q y ≡ true → p y ≡ false)
      → find_row q (update p f xs) ≡ find_row q xs
  unfolding find_row update
  find_row-update_other p q f [] keep apart = refl
  find_row-update_other p q f (y ∷ ys) keep apart =
      ground (arith, keep y, apart y, find_row-update_other p q f ys keep apart)

  pub find_row-any_row : (p : A → Bool) (xs : List A) → any_row p xs ≡ false → find_row p xs ≡ none
  unfolding find_row any_row
  find_row-any_row p [] h = refl
  find_row-any_row p (x ∷ xs) h = ground (arith, find_row-any_row p xs)

module _ {ℓ} {A : Type ℓ} where
  pub length-drop : (n : ℕ) (xs : List A) → length (drop n xs) ≡ length xs - n
  length-drop zero xs = omega arith
  length-drop (suc n) [] = omega arith
  length-drop (suc n) (x ∷ xs) = omega (arith, length-drop n xs)

  pub take-append-drop : (n : ℕ) (xs : List A) → take n xs ++ drop n xs ≡ xs
  take-append-drop zero xs = refl
  take-append-drop (suc n) [] = refl
  take-append-drop (suc n) (x ∷ xs) = ap (λ ys. x ∷ ys) (take-append-drop n xs)

  pub take_all : (n : ℕ) (xs : List A) → ltb n (length xs) ≡ false → take n xs ≡ xs
  take_all zero [] h = refl
  take_all zero (x ∷ xs) h = ground arith
  take_all (suc n) [] h = refl
  take_all (suc n) (x ∷ xs) h = ap (λ ys. x ∷ ys) (take_all n xs (ground arith))

  pub drop_all : (n : ℕ) (xs : List A) → ltb n (length xs) ≡ false → drop n xs ≡ []
  drop_all zero [] h = refl
  drop_all zero (x ∷ xs) h = ground arith
  drop_all (suc n) [] h = refl
  drop_all (suc n) (x ∷ xs) h = drop_all n xs (ground arith)
