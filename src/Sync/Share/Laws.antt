-- ===== src/Sync/Share/Laws.antt =====
-- Lemmas on shares, for what granting one and removing one does (internal/syncengine/access.go).
use nubilo.Prelude.{
  ℕ, ◌≡◌, ◌≤◌, refl, sym, ap, subst, String, Bool, true, false, ◌&&◌, none, some, List, [], ◌∷◌,
  ◌==◌, arith, inl, inr, Bool-cases, find_row, select, update,
}
use nubilo.Identity.Device.{is_active}
use nubilo.Store.{Db, User, Collection, Share, or_empty}
use nubilo.Sync.Access.{
  in_group, share_match, share_access, best_share, root_of, user_active, find_user, share_level,
  row_access,
}
use nubilo.Sync.Access.Agreement.{best_share-le}
use nubilo.Sync.Share.{touched}

-- Fewer shares give no more access.
pub best_share-select :
    (db : Db) (root user_id : String) (p : Share → Bool) (xs : List Share)
    → best_share db root user_id (select p xs) ≤ best_share db root user_id xs
unfolding best_share select
best_share-select db root user_id p [] = omega arith
best_share-select db root user_id p (x ∷ xs) =
    ground (arith, best_share-select db root user_id p xs)

share_level_mono : (a b : ℕ) → b ≤ 2 → a ≤ b → share_level a ≤ share_level b
unfolding share_level
share_level_mono a b h k = ground arith

-- A share that matches is worth at most the best one.
pub best_share-find_row :
    (db : Db) (root user_id : String) (p : Share → Bool) (xs : List Share) (s : Share)
    → find_row p xs ≡ some s
    → (s.collection_id == root && share_match db user_id s) ≡ true
    → share_access s ≤ best_share db root user_id xs
unfolding best_share find_row
best_share-find_row db root user_id p [] s f m = absurd (ground arith)
best_share-find_row db root user_id p (x ∷ xs) s f m = elim (Bool-cases (p x)) [
  | inl is ↦
      let same : x ≡ s = ground arith in
      let fits =
        subst (λ (y : Share). (y.collection_id == root && share_match db user_id y) ≡ true)
          (sym same) m in
      let worth = ap share_access same in ground (arith, fits, worth)
  | inr isnt ↦
      let rest = best_share-find_row db root user_id p xs s (ground arith) m in ground (arith, rest)
]

-- Access reads the database's memberships only.
pub best_share-members :
    (a b : Db) (root user_id : String) (xs : List Share)
    → a.members ≡ b.members
    → best_share a root user_id xs ≡ best_share b root user_id xs
unfolding best_share share_match in_group
best_share-members a b root user_id [] same = refl
best_share-members a b root user_id (x ∷ xs) same =
    ground (arith, same, best_share-members a b root user_id xs same)

-- Under a touch, the row of an id keeps its owner and its root.
pub found_touched :
    (db : Db) (id k : String) (now : ℕ) (xs : List Collection) (c : Collection)
    → find_row (λ (x : Collection). x.id == k) xs ≡ some c
    → (c' : Collection) × (find_row
          (λ (x : Collection). x.id == k)
          (update (λ (x : Collection). x.id == id) (touched now) xs)
        ≡ some c')
      × (c'.owner_user_id ≡ c.owner_user_id)
      × (root_of c' ≡ root_of c)
unfolding find_row update touched root_of
found_touched db id k now [] c f = absurd (ground arith)
found_touched db id k now (x ∷ xs) c f = elim (Bool-cases (x.id == k)) [
  | inr isnt ↦
      let (c', g, owner, root) = found_touched db id k now xs c (ground arith) in
      (c', ground (arith, g), owner, root)
  | inl is ↦
      let same : x ≡ c = ground arith in
      elim (Bool-cases (x.id == id)) [
        | inl hit ↦ (
          touched now x,
          ground (arith, hit, is),
          ap (λ (y : Collection). y.owner_user_id) same,
          ap root_of same,
        )
        | inr miss ↦ (
          x,
          ground (arith, miss, is),
          ap (λ (y : Collection). y.owner_user_id) same,
          ap root_of same,
        )
      ]
]

pub user_active-users :
    (a b : Db) (u : String) → a.users ≡ b.users → user_active a u ≡ user_active b u
unfolding user_active find_user
user_active-users a b u same =
    ap
      (λ us. elim (find_row (λ (x : User). x.id == u) us) [
        | none ↦ false
        | some x ↦ is_active x.status
      ])
      same

pub row_access_mono :
    (a b : Db) (u : String) (c d : Collection)
    → a.users ≡ b.users
    → c.owner_user_id ≡ d.owner_user_id
    → best_share a (root_of c) u a.shares ≤ best_share b (root_of d) u b.shares
    → row_access a u c ≤ row_access b u d
unfolding row_access
row_access_mono a b u c d users owner fewer =
    let best = best_share b (root_of d) u b.shares in
    let caller = user_active-users a b u users in
    let holder = user_active-users a b (or_empty d.owner_user_id) users in
    let shared =
      share_level_mono (best_share a (root_of c) u a.shares) best
        (best_share-le b (root_of d) u b.shares) fewer in
    ground (arith, caller, holder, shared, owner)
