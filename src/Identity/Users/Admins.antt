-- ===== src/Identity/Users/Admins.antt =====
-- The server keeps an active admin (internal/identity/users.go).
use nubilo.Prelude.{
  ◌≡◌, refl, sym, subst, inl, inr, String, Bool, true, false, not, ◌&&◌, List, [], ◌∷◌, ◌++◌, ◌==◌,
  arith, any_row, update,
}
use nubilo.Store.{Db, User}
use nubilo.Store.Tx.{Tx, ok, with_write, with_write-parts}
use nubilo.Identity.Users.{active_admin, update_user, ensure_other_admin}

abbrev pub HasAdmin : Db → Type 0
HasAdmin db = any_row active_admin db.users ≡ true

pub any_row-append :
    (p : User → Bool) (xs ys : List User) → any_row p xs ≡ true → any_row p (xs ++ ys) ≡ true
unfolding any_row
any_row-append p [] ys h = ground arith
any_row-append p (x ∷ xs) ys h = ground (arith, any_row-append p xs ys)

-- An update that leaves the admins among the rows it changes.
any_row-update :
    (p : User → Bool) (f : User → User) (xs : List User)
    → ((x : User) → active_admin x ≡ true → active_admin (f x) ≡ true)
    → any_row active_admin xs ≡ true
    → any_row active_admin (update p f xs) ≡ true
unfolding any_row update
any_row-update p f [] keep h = h
any_row-update p f (x ∷ xs) keep h = ground (arith, keep x, any_row-update p f xs keep)

-- An update of one id leaves the admins of the others.
any_row-update_other :
    (id : String) (f : User → User) (xs : List User)
    → any_row (λ (u : User). active_admin u && not (u.id == id)) xs ≡ true
    → any_row active_admin (update (λ (u : User). u.id == id) f xs) ≡ true
unfolding any_row update
any_row-update_other id f [] h = ground arith
any_row-update_other id f (x ∷ xs) h = ground (arith, any_row-update_other id f xs)

-- With no admin of another id and none of this one there is none.
no_admin :
    (id : String) (xs : List User)
    → any_row (λ (u : User). active_admin u && not (u.id == id)) xs ≡ false
    → any_row (λ (u : User). u.id == id && active_admin u) xs ≡ false
    → any_row active_admin xs ≡ false
unfolding any_row
no_admin id [] h k = refl
no_admin id (x ∷ xs) h k = ground (arith, no_admin id xs)

pub other_admin :
    (id : String) (db mid : Db) (u : Unit {0})
    → ensure_other_admin id db ≡ ok (u, mid)
    → HasAdmin db
    → (mid ≡ db) × (any_row (λ (x : User). active_admin x && not (x.id == id)) db.users ≡ true)
unfolding ensure_other_admin
other_admin id db mid u h w = ground (arith, h, no_admin id db.users)

-- A transaction whose end has an admin leaves one, also where it is rolled back.
pub with_write-HasAdmin :
    {A : Type 0} (m : Tx A) (db : Db)
    → ((r : A × Db) → m db ≡ ok r → HasAdmin r.1)
    → HasAdmin db
    → HasAdmin (with_write m db).1
with_write-HasAdmin m db keep h = elim (with_write-parts m db) [
  | inl (r, e, w) ↦ subst (λ x. HasAdmin x.1) (sym w) (keep r e)
  | inr (e, w) ↦ subst (λ x. HasAdmin x.1) (sym w) h
]

pub update_user-HasAdmin :
    (id : String) (f : User → User) (db : Db) (r : Unit {0} × Db)
    → ((x : User) → active_admin x ≡ true → active_admin (f x) ≡ true)
    → update_user id f db ≡ ok r
    → HasAdmin db
    → HasAdmin r.1
unfolding update_user
update_user-HasAdmin id f db r keep h w =
    ground (arith, h, any_row-update (λ (u : User). u.id == id) f db.users keep)

pub update_user-HasAdmin_other :
    (id : String) (f : User → User) (db : Db) (r : Unit {0} × Db)
    → update_user id f db ≡ ok r
    → any_row (λ (u : User). active_admin u && not (u.id == id)) db.users ≡ true
    → HasAdmin r.1
unfolding update_user
update_user-HasAdmin_other id f db r h w = ground (arith, h, any_row-update_other id f db.users)
