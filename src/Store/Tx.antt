-- ===== src/Store/Tx.antt =====
-- Errors, and steps inside a write transaction (Store.WithWrite): a step that returns an error leaves
-- no state, since the transaction is rolled back.

use nubilo.Prelude.{◌≡◌, ◌⊎◌, inl, inr, refl}
use nubilo.Store.{Db}

pub data Err : Type 0 where
  not_found conflict authorization future_cursor bad_batch key_required collection : Err
  collection_exists object blob idempotency share unknown_blob unique : Err
  username name_refused user_exists user_disabled user_role last_admin quota : Err
  foreign_key scan invalid_code expired too_many_tries too_many_active bad_signature completed
        bad_key :
      Err

pub data Result {ℓ} (A : Type ℓ) : Type ℓ where
  ok : A → Result A
  err : Err → Result A

abbrev pub Tx : Type 0 → Type 0
Tx A = Db → Result (A × Db)

infixl 5 ◌>>=◌ ◌>>◌
abbrev pub ◌>>=◌ : {A B : Type 0} → Tx A → (A → Tx B) → Tx B
◌>>=◌ m f db = elim (m db) [ ok r ↦ f r.0 r.1 | err e ↦ err e ]

abbrev pub ◌>>◌ : {A B : Type 0} → Tx A → Tx B → Tx B
m >> k = m >>= λ _. k

abbrev pub pure : {A : Type 0} → A → Tx A
pure a db = ok (a, db)

abbrev pub raise : {A : Type 0} → Err → Tx A
raise e db = err e

abbrev pub gets : {A : Type 0} → (Db → A) → Tx A
gets f db = ok (f db, db)

abbrev pub modify : (Db → Db) → Tx (Unit {0})
modify f db = ok (tt, f db)

-- The handler goes on with a value that may be an error.
abbrev pub lift : {A : Type 0} → Result A → Tx A
lift (ok a) db = ok (a, db)
lift (err e) db = err e

-- What a transaction leaves behind: its state where it is committed, and the old one where it is rolled
-- back. That a rollback undoes everything is what the database documents; WithWrite relies on it.
unfoldable pub with_write : {A : Type 0} → Tx A → Db → Result A × Db
with_write m db = elim (m db) [ ok r ↦ (ok r.0, r.1) | err e ↦ (err e, db) ]

-- A sequence that returns has returned from both parts.
pub bind_parts :
    {A B : Type 0} (m : Tx A) (f : A → Tx B) (db : Db) {r : B × Db}
    → (m >>= f) db ≡ ok r
    → (a : A) × (mid : Db) × (m db ≡ ok (a, mid)) × (f a mid ≡ ok r)
bind_parts {A} {B} m f db {r} h = go (m db) refl h
  where
    go :
        (t : Result (A × Db))
        → m db ≡ t
        → ◌≡◌ {A = Result (B × Db)} (elim t [ ok p ↦ f p.0 p.1 | err e ↦ err e ]) (ok r)
        → (a : A) × (mid : Db) × (m db ≡ ok (a, mid)) × (f a mid ≡ ok r)
    go (ok (a, mid)) e k = (a, mid, e, k)
    go (err x) e k = cc

-- A write transaction commits, or leaves the state as it was.
pub with_write-parts :
    {A : Type 0} (m : Tx A) (db : Db)
    → ((r : A × Db) × (m db ≡ ok r) × (with_write m db ≡ (ok r.0, r.1)))
      ⊎ ((e : Err) × (with_write m db ≡ (err e, db)))
unfolding with_write
with_write-parts {A} m db = go (m db) refl
  where
    go :
        (t : Result (A × Db))
        → m db ≡ t
        → ((r : A × Db) × (m db ≡ ok r) × (with_write m db ≡ (ok r.0, r.1)))
          ⊎ ((e : Err) × (with_write m db ≡ (err e, db)))
    go (ok r) e = inl (r, e, cc)
    go (err x) e = inr (x, cc)

-- A value that is not an error leaves the state.
pub lift-state :
    {A : Type 0} (t : Result A) (db mid : Db) {a : A} → lift t db ≡ ok (a, mid) → mid ≡ db
lift-state (ok x) db mid h = cc
lift-state (err e) db mid h = cc
