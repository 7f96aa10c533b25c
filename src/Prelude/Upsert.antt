-- ===== src/Prelude/Upsert.antt =====
-- INSERT … ON CONFLICT … DO UPDATE, on a table as a list of rows.
use mathlib.Core.Path.{◌≡◌, refl, ap, ◌∙◌}
use mathlib.Core.Logic.{inl, inr}
use mathlib.Core.Bool.{Bool, true, false}
use mathlib.Core.Option.{Option, none, some}
use mathlib.Core.List.{List, [], ◌∷◌, ◌++◌}
use native.Mathlib.Omega.{arith}
use nubilo.Prelude.Tests.{if◌then◌else◌, Bool-cases}
use nubilo.Prelude.Lists.{
  find_row, any_row, update, any_row-find_row, find_row-any_row, find_row-append,
  find_row-append_other, find_row-update_self, find_row-update_other,
}

module _ {ℓ} {A : Type ℓ} where
  -- `key` tells the rows that are in conflict with `x`, and `f` changes them.
  unfoldable pub upsert : (A → Bool) → (A → A) → A → List A → List A
  upsert key f x xs = if any_row key xs then update key f xs else xs ++ x ∷ []

  abbrev pub merged : (A → A) → A → Option A → A
  merged f x none = x
  merged f x (some y) = f y

  find_row-upsert_at :
      (key : A → Bool) (f : A → A) (x : A) (xs : List A) (t : Option A)
      → ((y : A) → key (f y) ≡ key y)
      → key x ≡ true
      → find_row key xs ≡ t
      → find_row key (upsert key f x xs) ≡ some (merged f x t)
  unfolding upsert
  find_row-upsert_at key f x xs none keep is h =
      rw (any_row-find_row key xs h)
        (find_row-append key xs x h ∙ ap (λ b. if b then some x else none) is)
  find_row-upsert_at key f x xs (some y) keep is h = elim (Bool-cases (any_row key xs)) [
    | inl there ↦ rw there (find_row-update_self key f xs y keep h)
    | inr gone ↦ absurd (ground (arith, find_row-any_row key xs gone))
  ]

  -- The row of the key is the old one with the change, or the new one.
  pub find_row-upsert :
      (key : A → Bool) (f : A → A) (x : A) (xs : List A)
      → ((y : A) → key (f y) ≡ key y)
      → key x ≡ true
      → find_row key (upsert key f x xs) ≡ some (merged f x (find_row key xs))
  find_row-upsert key f x xs keep is = find_row-upsert_at key f x xs (find_row key xs) keep is refl

  -- Rows of another key stay as they are.
  pub find_row-upsert_other :
      (key q : A → Bool) (f : A → A) (x : A) (xs : List A)
      → ((y : A) → q (f y) ≡ q y)
      → ((y : A) → q y ≡ true → key y ≡ false)
      → q x ≡ false
      → find_row q (upsert key f x xs) ≡ find_row q xs
  unfolding upsert
  find_row-upsert_other key q f x xs keep apart is = elim (Bool-cases (any_row key xs)) [
    | inl there ↦ rw there (find_row-update_other key q f xs keep apart)
    | inr gone ↦ rw gone (find_row-append_other q xs x is)
  ]
