-- ===== src/Sync/Tree/Growth.antt =====
-- The tree through creations, renames and deletions of collections: CreateCollection of
-- internal/syncengine/engine.go, RenameCollection and TombstoneCollection of
-- internal/syncengine/lookup.go.
use nubilo.Prelude.{
  ◌≡◌, ◌⊎◌, refl, sym, ap, ◌∙◌, subst, inl, inr, String, Bool, true, false, none, some, List, [],
  ◌∷◌, ◌++◌, ◌==◌, arith, eq_iff, text_eq_sym, Bool-cases, Option-cases, any_row, find_row,
  find_row-append, find_row-append_found, find_row-any_row, update, if◌then◌else◌,
}
use nubilo.Store.{Db, Collection, or_empty, sql_eq}
use nubilo.Sync.Access.{find_collection, root_of}
use nubilo.Sync.Tree.Owners.{OwnersAgree}
use nubilo.Sync.Tree.Roots.{RootsAgree}
use nubilo.Sync.Tree.Subtree.{Distinct}
use nubilo.Sync.Tree.Trace.{found_before, update-Distinct}

-- The tree is right: distinct ids, and roots and owners as the parents have them.
abbrev pub IsTree : Db → Type 0
IsTree db = Distinct db.collections × RootsAgree db × OwnersAgree db

abbrev SameNode : Collection → Collection → Type 0
SameNode d c =
    (d.id ≡ c.id)
    × (d.parent_id ≡ c.parent_id)
    × (d.root_id ≡ c.root_id)
    × (d.owner_user_id ≡ c.owner_user_id)

either_node :
    (b : Bool) (f : Collection → Collection) (c d : Collection)
    → SameNode (f c) c
    → d ≡ (if b then f c else c)
    → SameNode d c
either_node true f c d h e = subst (λ x. SameNode x c) (sym e) h
either_node false f c d h e = subst (λ x. SameNode x c) (sym e) (refl, refl, refl, refl)

same_root_of : (c d : Collection) → SameNode d c → root_of d ≡ root_of c
unfolding root_of
same_root_of c d (id, parent, root, owner) = ground (arith, id, root)

node_before :
    (p : Collection → Bool) (f : Collection → Collection) (db after : Db) (cur : String)
    (d : Collection)
    → ((x : Collection) → SameNode (f x) x)
    → after.collections ≡ update p f db.collections
    → find_collection after cur ≡ some d
    → (c : Collection) × (find_collection db cur ≡ some c) × SameNode d c
unfolding find_collection
node_before p f db after cur d same rows h =
    let q : Collection → Bool = λ x. x.id == cur in
    let (c, e, is) =
      found_before q p f db.collections d (λ x. ap (λ i. i == cur) (same x).0)
        (subst (λ cs. find_row q cs ≡ some d) rows h) in
    (c, e, either_node (p c) f c d (same c) is)

-- An update that leaves a collection's place in the tree.
pub update-IsTree :
    (p : Collection → Bool) (f : Collection → Collection) (db after : Db)
    → ((x : Collection) → SameNode (f x) x)
    → after.collections ≡ update p f db.collections
    → IsTree db
    → IsTree after
update-IsTree p f db after same rows (distinct, roots, owners) = (
  subst Distinct (sym rows) (update-Distinct p f db.collections (λ x. (same x).0) distinct),
  λ cur d h.
      let (c, e, sn) = node_before p f db after cur d same rows h in
      let r = same_root_of c d sn in
      (
        λ top. r ∙ (roots cur c e).0 (sym sn.1 ∙ top),
        λ t q up there.
            let (c2, e2, sn2) = node_before p f db after t q same rows there in
            r ∙ (roots cur c e).1 t c2 (sym sn.1 ∙ up) e2 ∙ sym (same_root_of c2 q sn2),
      ),
  λ cur d t q h up there.
      let (c, e, sn) = node_before p f db after cur d same rows h in
      let (c2, e2, sn2) = node_before p f db after t q same rows there in
      ap or_empty sn.3 ∙ owners cur c t c2 e (sym sn.1 ∙ up) e2 ∙ sym (ap or_empty sn2.3),
)

-- A new row: its place fits, and no row names its id.
abbrev pub Fits : Db → Collection → Type 0
Fits db n =
    (any_row (λ (x : Collection). x.id == n.id) db.collections ≡ false)
    × (any_row (λ (x : Collection). sql_eq x.parent_id n.id) db.collections ≡ false)
    × (n.parent_id ≡ none → root_of n ≡ n.id)
    × ((t : String)
        → n.parent_id ≡ some t
        → (p : Collection) × (find_collection db t ≡ some p)
          × (root_of n ≡ root_of p)
          × (or_empty n.owner_user_id ≡ or_empty p.owner_user_id))

node_added :
    (db after : Db) (n : Collection) (cur : String) (d : Collection)
    → after.collections ≡ db.collections ++ n ∷ []
    → find_collection after cur ≡ some d
    → (find_collection db cur ≡ some d) ⊎ ((d ≡ n) × (n.id ≡ cur))
unfolding find_collection
node_added db after n cur d rows h =
    let q : Collection → Bool = λ x. x.id == cur in
    let found = subst (λ cs. find_row q cs ≡ some d) rows h in
    elim (Option-cases (find_row q db.collections)) [
      | inr (c, e) ↦ inl (e ∙ sym (find_row-append_found q db.collections n c e) ∙ found)
      | inl e ↦
          let one = sym (find_row-append q db.collections n e) ∙ found in
          elim (Bool-cases (n.id == cur)) [
            | inl is ↦ inr (ground (arith, one, is), (eq_iff n.id cur).0 is)
            | inr isnt ↦ absurd (ground (arith, one, isnt))
          ]
    ]

no_parent :
    (x : String) (t : String) (cs : List Collection) (cur : String) (c : Collection)
    → any_row (λ (y : Collection). sql_eq y.parent_id x) cs ≡ false
    → find_row (λ (y : Collection). y.id == cur) cs ≡ some c
    → c.parent_id ≡ some t
    → x ≡ t
    → ⊥
unfolding any_row find_row
no_parent x t [] cur c h e up is = ground arith
no_parent x t (y ∷ ys) cur c h e up is = elim (Bool-cases (y.id == cur)) [
  | inr miss ↦ no_parent x t ys cur c (ground (arith, h)) (ground (arith, miss, e)) up is
  | inl hit ↦
      let own : y.parent_id ≡ some t = ground (arith, hit, e, up) in
      let clash = (eq_iff t x).1 (sym is) in ground (arith, h, own, clash)
]

-- Where the parent of a row is after a new one was added.
parent_added :
    (db after : Db) (n : Collection) (cur t : String) (c q : Collection)
    → after.collections ≡ db.collections ++ n ∷ []
    → Fits db n
    → find_collection db cur ≡ some c
    → c.parent_id ≡ some t
    → find_collection after t ≡ some q
    → find_collection db t ≡ some q
unfolding find_collection
parent_added db after n cur t c q rows fits e up there =
    elim (node_added db after n t q rows there) [
      | inl old ↦ old
      | inr (is, at_id) ↦ absurd (no_parent n.id t db.collections cur c fits.1 e up at_id)
    ]

new_parent_added :
    (db after : Db) (n : Collection) (t : String) (p q : Collection)
    → after.collections ≡ db.collections ++ n ∷ []
    → Fits db n
    → find_collection db t ≡ some p
    → find_collection after t ≡ some q
    → p ≡ q
unfolding find_collection
new_parent_added db after n t p q rows fits e there = elim (node_added db after n t q rows there) [
  | inl old ↦ ground (arith, old, e)
  | inr (is, at_id) ↦
      let gone = find_row-any_row (λ (x : Collection). x.id == n.id) db.collections fits.0 in
      let here =
        subst (λ i. find_row (λ (x : Collection). x.id == i) db.collections ≡ some p) (sym at_id)
          e in
      absurd (ground (arith, gone, here))
]

any_id-append :
    (i : String) (cs : List Collection) (n : Collection)
    → any_row (λ (x : Collection). x.id == i) cs ≡ false
    → (n.id == i) ≡ false
    → any_row (λ (x : Collection). x.id == i) (cs ++ n ∷ []) ≡ false
unfolding any_row
any_id-append i [] n h k = ground arith
any_id-append i (c ∷ cs) n h k = ground (arith, any_id-append i cs n)

append-Distinct :
    (cs : List Collection) (n : Collection)
    → any_row (λ (x : Collection). x.id == n.id) cs ≡ false
    → Distinct cs
    → Distinct (cs ++ n ∷ [])
unfolding any_row
append-Distinct [] n h d = (refl, tt)
append-Distinct (c ∷ cs) n h d =
    let apart : (c.id == n.id) ≡ false = ground (arith, h) in
    (
      any_id-append c.id cs n d.0 (text_eq_sym n.id c.id ∙ apart),
      append-Distinct cs n (ground (arith, h)) d.1,
    )

root_added :
    (db after : Db) (n : Collection) (cur : String) (d : Collection)
    → after.collections ≡ db.collections ++ n ∷ []
    → Fits db n
    → RootsAgree db
    → find_collection after cur ≡ some d
    → (d.parent_id ≡ none → root_of d ≡ cur)
      × ((t : String) (q : Collection)
          → d.parent_id ≡ some t
          → find_collection after t ≡ some q
          → root_of d ≡ root_of q)
root_added db after n cur d rows fits roots h = elim (node_added db after n cur d rows h) [
  | inl e ↦ (
    (roots cur d e).0,
    λ t q up there.
        (roots cur d e).1 t q up (parent_added db after n cur t d q rows fits e up there),
  )
  | inr (is, at_id) ↦ (
    λ top. ap root_of is ∙ fits.2 (sym (ap (λ (x : Collection). x.parent_id) is) ∙ top) ∙ at_id,
    λ t q up there.
        let (p, e, root, owner) = fits.3 t (sym (ap (λ (x : Collection). x.parent_id) is) ∙ up) in
        ap root_of is ∙ root ∙ ap root_of (new_parent_added db after n t p q rows fits e there),
  )
]

owner_added :
    (db after : Db) (n : Collection) (cur : String) (d : Collection) (t : String) (q : Collection)
    → after.collections ≡ db.collections ++ n ∷ []
    → Fits db n
    → OwnersAgree db
    → find_collection after cur ≡ some d
    → d.parent_id ≡ some t
    → find_collection after t ≡ some q
    → or_empty d.owner_user_id ≡ or_empty q.owner_user_id
owner_added db after n cur d t q rows fits owners h up there =
    elim (node_added db after n cur d rows h) [
      | inl e ↦ owners cur d t q e up (parent_added db after n cur t d q rows fits e up there)
      | inr (is, at_id) ↦
          let (p, e, root, owner) = fits.3 t (sym (ap (λ (x : Collection). x.parent_id) is) ∙ up) in
          ap (λ (x : Collection). or_empty x.owner_user_id) is
          ∙ owner
          ∙ ap (λ (x : Collection). or_empty x.owner_user_id)
              (new_parent_added db after n t p q rows fits e there)
    ]

pub append-IsTree :
    (db after : Db) (n : Collection)
    → after.collections ≡ db.collections ++ n ∷ []
    → Fits db n
    → IsTree db
    → IsTree after
append-IsTree db after n rows fits (distinct, roots, owners) = (
  subst Distinct (sym rows) (append-Distinct db.collections n fits.0 distinct),
  λ cur d h. root_added db after n cur d rows fits roots h,
  λ cur d t q h up there. owner_added db after n cur d t q rows fits owners h up there,
)
