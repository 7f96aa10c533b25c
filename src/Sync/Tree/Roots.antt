-- ===== src/Sync/Tree/Roots.antt =====
-- A move keeps the roots right (SetCollectionParent of internal/syncengine/lookup.go): access to a
-- collection is that of its root.
use nubilo.Prelude.{
  ℕ, ◌≡◌, refl, sym, ap, ◌∙◌, subst, inl, inr, String, Bool, true, false, Option, none, some, List,
  [], ◌∷◌, ◌==◌, arith, eq_iff, Bool-cases, any_row, find_row_passes, if◌then◌else◌,
}
use nubilo.Store.{Db, Collection, sql_eq}
use nubilo.Store.Tx.{ok}
use nubilo.Sync.Access.{find_collection, root_of}
use nubilo.Sync.Collections.{live_at}
use nubilo.Sync.Tree.{in_ids, subtree, set_parent, set_collection_parent}
use nubilo.Sync.Tree.Moves.{reparented, Moved, moved, Target, to_top, under, move-parts}
use nubilo.Sync.Tree.Subtree.{Distinct, listed}
use nubilo.Sync.Tree.Owners.{OwnersAgree, Moved-OwnersAgree}
use nubilo.Sync.Tree.Trace.{
  Trace, trace, trace_root, update-Distinct, rooted_parent, none_under, some_under, linked_there,
  not_linked,
}

-- A collection at the top is its own root, and another one has the root of its parent.
abbrev pub RootsAgree : Db → Type 0
RootsAgree db =
    (cur : String) (c : Collection)
    → find_collection db cur ≡ some c
    → (c.parent_id ≡ none → root_of c ≡ cur)
      × ((parent : String) (p : Collection)
          → c.parent_id ≡ some parent
          → find_collection db parent ≡ some p
          → root_of c ≡ root_of p)

-- The parent of a row that is not moved, and of the one that is.
mid_parent :
    (id : String) (to : Option String) (now : ℕ) (c mid : Collection) (b : Bool)
    → live_at id c ≡ b
    → mid ≡ (if live_at id c then set_parent to now c else c)
    → mid.parent_id ≡ (if b then to else c.parent_id)
mid_parent id to now c mid true h is =
    ap (λ (x : Collection). x.parent_id) (is ∙ ap (λ b. if b then set_parent to now c else c) h)
mid_parent id to now c mid false h is =
    ap (λ (x : Collection). x.parent_id) (is ∙ ap (λ b. if b then set_parent to now c else c) h)

-- What becomes of a row: it is the one that moves, it is below it, or it is left alone.
data Fate (db : Db) (id : String) (to : Option String) (root : String) (ids : List String)
    (cur : String) (d : Collection) : Type 0 where
  moves : id ≡ cur → root_of d ≡ root → d.parent_id ≡ to → Fate db id to root ids cur d
  inside : root_of d ≡ root → any_row (sql_eq d.parent_id) ids ≡ true → Fate db id to root ids cur d
  outside :
      (c : Collection)
      → find_collection db cur ≡ some c
      → root_of d ≡ root_of c
      → d.parent_id ≡ c.parent_id
      → any_row (sql_eq d.parent_id) ids ≡ false
      → Fate db id to root ids cur d

stays_put :
    (id cur : String) (c : Collection) (db : Db)
    → find_collection db cur ≡ some c
    → (cur == id) ≡ false
    → live_at id c ≡ false
unfolding find_collection
stays_put id cur c db e other =
    let own =
      (eq_iff c.id cur).0 (find_row_passes (λ (x : Collection). x.id == cur) db.collections c e) in
    let apart : (c.id == id) ≡ false = subst (λ i. (i == id) ≡ false) (sym own) other in
    ground (arith, apart)

fate :
    (fuel : ℕ) (db : Db) (id : String) (to : Option String) (root : String) (now : ℕ)
    (ids : List String) (c0 : Collection) (cur : String) (d : Collection)
    → find_collection db id ≡ some c0
    → live_at id c0 ≡ true
    → Distinct (reparented id to now db.collections)
    → subtree fuel (reparented id to now db.collections) (id ∷ []) ≡ some ids
    → Trace id to root now ids db cur d
    → Fate db id to root ids cur d
fate fuel db id to root now ids c0 cur d e0 live distinct sub (c, mid, e, there, was, is, own) =
    let at_root = trace_root id to root now ids db cur d c mid was is own in
    let up = ap (λ (x : Collection). x.parent_id) is ∙ rooted_parent (in_ids ids mid) root mid in
    elim (Bool-cases (listed cur ids)) [
      | inl hit ↦
          let new : root_of d ≡ root = ground (arith, at_root, hit) in
          elim (linked_there fuel id cur (reparented id to now db.collections) ids mid distinct sub
            there hit) [
              | inl same ↦
                  let own_row : some c ≡ some c0 =
                    sym (subst (λ i. find_collection db i ≡ some c) (sym same) e) ∙ e0 in
                  let one : c0 ≡ c = ground (arith, own_row) in
                  let alive = subst (λ (x : Collection). live_at id x ≡ true) one live in
                  moves same new (up ∙ mid_parent id to now c mid true alive was)
              | inr linked ↦ inside new (subst (λ q. any_row (sql_eq q) ids ≡ true) (sym up) linked)
            ]
      | inr miss ↦
          let (unlinked, other) =
            not_linked fuel id cur (reparented id to now db.collections) ids mid sub there miss in
          let still = stays_put id cur c db e other in
          outside c e (ground (arith, at_root, miss))
            (up ∙ mid_parent id to now c mid false still was)
            (subst (λ q. any_row (sql_eq q) ids ≡ false) (sym up) unlinked)
    ]

under_listed :
    (t : String) (ids : List String) (q : Option String) (b : Bool)
    → q ≡ some t
    → any_row (sql_eq q) ids ≡ b
    → listed t ids ≡ b
under_listed t ids q b h k = sym (some_under t ids) ∙ subst (λ x. any_row (sql_eq x) ids ≡ b) h k

Target-top :
    (db : Db) (id parent : String) (to : Option String) (root : String)
    → Target db id parent to root
    → to ≡ none
    → root ≡ id
Target-top db id parent to root to_top h = refl
Target-top db id parent to root (under p e) h = absurd (ground (arith, h))

Target-root :
    (db : Db) (id parent : String) (to : Option String) (root t : String) (p : Collection)
    → Target db id parent to root
    → to ≡ some t
    → find_collection db t ≡ some p
    → root ≡ root_of p
Target-root db id parent to root t p to_top h e = absurd (ground (arith, h))
Target-root db id parent to root t p (under q f) h e =
    let same : parent ≡ t = ground (arith, h) in
    let rows : some q ≡ some p =
      sym f ∙ (subst (λ x. find_collection db x ≡ some p) (sym same) e) in
    ap root_of (ground (arith, rows))

Fate-top :
    (db : Db) (id parent : String) (to : Option String) (root : String) (ids : List String)
    (cur : String) (d : Collection)
    → RootsAgree db
    → Target db id parent to root
    → Fate db id to root ids cur d
    → d.parent_id ≡ none
    → root_of d ≡ cur
Fate-top db id parent to root ids cur d agree target (moves same new up) top =
    new ∙ Target-top db id parent to root target (sym up ∙ top) ∙ same
Fate-top db id parent to root ids cur d agree target (inside new linked) top =
    let nothing = none_under ids in
    let hit = subst (λ q. any_row (sql_eq q) ids ≡ true) top linked in
    absurd (ground (arith, nothing, hit))
Fate-top db id parent to root ids cur d agree target (outside c e old up linked) top =
    old ∙ (agree cur c e).0 (sym up ∙ top)

Fate-child :
    (db : Db) (id parent : String) (to : Option String) (root : String) (ids : List String)
    (cur t : String) (d p q : Collection)
    → RootsAgree db
    → Target db id parent to root
    → Fate db id to root ids cur d
    → d.parent_id ≡ some t
    → find_collection db t ≡ some p
    → root_of q ≡ (if listed t ids then root else root_of p)
    → root_of d ≡ root_of q
Fate-child db id parent to root ids cur t d p q agree target (moves same new up) under_t e after =
    let agreed = Target-root db id parent to root t p target (sym up ∙ under_t) e in
    elim (Bool-cases (listed t ids)) [
      | inl hit ↦ ground (arith, new, after, hit)
      | inr miss ↦ ground (arith, new, after, miss, agreed)
    ]
Fate-child db id parent to root ids cur t d p q agree target (inside new linked) under_t e after =
    let hit = under_listed t ids d.parent_id true under_t linked in ground (arith, new, after, hit)
Fate-child db id parent to root ids cur t d p q agree target (outside c f old up linked) under_t e
      after =
    let miss = under_listed t ids d.parent_id false under_t linked in
    let agreed = (agree cur c f).1 t p (sym up ∙ under_t) e in
    ground (arith, old, after, miss, agreed)

Moved-RootsAgree :
    (fuel : ℕ) (db after : Db) (id parent : String) (to : Option String) (root : String)
    (c0 : Collection)
    → Distinct db.collections
    → find_collection db id ≡ some c0
    → live_at id c0 ≡ true
    → Target db id parent to root
    → Moved fuel db id to root after
    → RootsAgree db
    → RootsAgree after
Moved-RootsAgree fuel db after id parent to root c0 distinct e0 live target (moved now ids sub rows)
      agree cur d found =
    let distinct_rows =
      update-Distinct (live_at id) (set_parent to now) db.collections (λ x. refl) distinct in
    let own =
      fate fuel db id to root now ids c0 cur d e0 live distinct_rows sub
        (trace id to root now ids db after cur d rows found) in
    (
      Fate-top db id parent to root ids cur d agree target own,
      λ t q under_t there.
          let (p, mid, e, _, was, is, at_t) = trace id to root now ids db after t q rows there in
          Fate-child db id parent to root ids cur t d p q agree target own under_t e
            (trace_root id to root now ids db t q p mid was is at_t),
    )

-- A move keeps the roots and the owners right: if every collection at the top is its own root and every
-- other one has the root and the owner of its parent, and no two collections have one id, then this is
-- so after a SetCollectionParent that succeeds.
pub move-RootsAgree :
    (fuel : ℕ) (db after : Db) (id parent : String) (now : ℕ)
    → Distinct db.collections
    → set_collection_parent fuel id parent now db ≡ some (ok tt, after)
    → RootsAgree db × OwnersAgree db
    → RootsAgree after × OwnersAgree after
move-RootsAgree fuel db after id parent now distinct h agree =
    let (c0, to, root, e0, live, own, target, m, kept) = move-parts fuel id parent now db after h in
    let hit = (eq_iff c0.id id).1 own in
    (
      Moved-RootsAgree fuel db after id parent to root c0 distinct e0 (ground (arith, hit, live))
          target m agree.0,
      Moved-OwnersAgree fuel db after id to root c0 e0 kept m agree.1,
    )
