-- ===== src/Sync/Tree/Access.antt =====
-- What a share gives: the abstract rule that it covers the whole tree below the collection that is
-- shared, and accessQ of internal/syncengine/access.go, which reads the column root_id.
use nubilo.Prelude.{
  ◌||◌, ◌≡◌, refl, sym, ap, ◌∙◌, inl, inr, String, true, false, not, none, some, ◌==◌, arith,
  eq_iff, Bool-cases, find_row_passes, if◌then◌else◌,
}
use nubilo.Authz.{Access, access_none, access_owner}
use nubilo.Store.{Db, Collection, or_empty}
use nubilo.Store.Tx.{ok}
use nubilo.Sync.Access.{
  find_collection, root_of, user_active, best_share, share_level, row_access, access_q,
}
use nubilo.Sync.Tree.Owners.{OwnersAgree}
use nubilo.Sync.Tree.Roots.{RootsAgree}

-- The collection at the top of the tree that an id is in.
pub data TopOf (db : Db) : String → Collection → Type 0 where
  itself :
      {cur : String} {c : Collection}
      → find_collection db cur ≡ some c
      → c.parent_id ≡ none
      → TopOf db cur c
  above :
      {cur parent : String} {c top : Collection}
      → find_collection db cur ≡ some c
      → c.parent_id ≡ some parent
      → TopOf db parent top
      → TopOf db cur top

-- The rule: an active user has what the owner of the tree, or a share of its top, gives.
unfoldable pub tree_access : Db → String → Collection → Access
unfolding user_active best_share share_level
tree_access db user_id top =
    let owner = or_empty top.owner_user_id in
    if user_id == "" || not (user_active db user_id)
    then access_none
    else if owner == user_id
    then access_owner
    else if not (user_active db owner)
    then access_none
    else share_level (best_share db top.id user_id db.shares)

found_id : (db : Db) (cur : String) (c : Collection) → find_collection db cur ≡ some c → c.id ≡ cur
unfolding find_collection
found_id db cur c e =
    (eq_iff c.id cur).0 (find_row_passes (λ (x : Collection). x.id == cur) db.collections c e)

found_top :
    (db : Db) (cur : String) (top : Collection)
    → TopOf db cur top
    → (c : Collection) × (find_collection db cur ≡ some c)
found_top db cur top (itself {c = c} e up) = (c, e)
found_top db cur top (above {c = c} e up rest) = (c, e)

same_root :
    (db : Db) (cur : String) (top c : Collection)
    → RootsAgree db
    → OwnersAgree db
    → TopOf db cur top
    → find_collection db cur ≡ some c
    → (root_of c ≡ top.id) × (or_empty c.owner_user_id ≡ or_empty top.owner_user_id)
same_root db cur top c roots owners (itself e up) h =
    let one : some c ≡ some top = sym h ∙ e in
    let is : c ≡ top = ground (arith, one) in
    (
      ap root_of is ∙ (roots cur top e).0 up ∙ sym (found_id db cur top e),
      ap (λ (x : Collection). or_empty x.owner_user_id) is,
    )
same_root db cur top c roots owners (above {parent = parent} {c = c'} e up rest) h =
    let one : some c ≡ some c' = sym h ∙ e in
    let is : c ≡ c' = ground (arith, one) in
    let (p, there) = found_top db parent top rest in
    let (root, owner) = same_root db parent top p roots owners rest there in
    (
      ap root_of is ∙ (roots cur c' e).1 parent p up there ∙ root,
      ap (λ (x : Collection). or_empty x.owner_user_id) is
          ∙ owners cur c' parent p e up there
          ∙ owner,
    )

row_lem :
    (db : Db) (user_id : String) (c top : Collection)
    → root_of c ≡ top.id
    → or_empty c.owner_user_id ≡ or_empty top.owner_user_id
    → (user_id == "") ≡ false
    → row_access db user_id c ≡ tree_access db user_id top
unfolding row_access tree_access
row_lem db user_id c top root owner named = rw root (rw owner (rw named refl))

named_access :
    (db : Db) (user_id cur : String) (c : Collection)
    → (user_id == "") ≡ false
    → find_collection db cur ≡ some c
    → access_q db user_id cur ≡ ok (row_access db user_id c)
unfolding access_q
named_access db user_id cur c named e = rw (access_q, named) (rw e refl)

nobody_access :
    (db : Db) (user_id cur : String) (top : Collection)
    → (user_id == "") ≡ true
    → access_q db user_id cur ≡ ok (tree_access db user_id top)
unfolding access_q tree_access
nobody_access db user_id cur top nobody = rw (access_q, nobody) refl

-- accessQ implements the rule that a share covers a tree: where every collection at the top is its own
-- root and every other one has the root and the owner of its parent, the access of a user to a
-- collection is what the owner of the collection at the top of its tree, or a share of that one, gives.
pub access_q-tree_access :
    (db : Db) (user_id cur : String) (top : Collection)
    → RootsAgree db
    → OwnersAgree db
    → TopOf db cur top
    → access_q db user_id cur ≡ ok (tree_access db user_id top)
access_q-tree_access db user_id cur top roots owners way =
    let (c, e) = found_top db cur top way in
    let (root, owner) = same_root db cur top c roots owners way e in
    elim (Bool-cases (user_id == "")) [
      | inl nobody ↦ nobody_access db user_id cur top nobody
      | inr named ↦
          named_access db user_id cur c named e ∙ ap ok (row_lem db user_id c top root owner named)
    ]
