-- ===== src/Sync/Tree/Trace.antt =====
-- The rows of one id before and after a move (SetCollectionParent of
-- internal/syncengine/lookup.go).
use nubilo.Prelude.{
  ℕ, ◌≡◌, ◌⊎◌, refl, sym, ap, ◌∙◌, subst, inl, inr, String, Bool, true, false, Option, none, some,
  List, [], ◌∷◌, ◌==◌, arith, eq_iff, eq_refl, text_eq_sym, Bool-cases, any_row, find_row,
  find_row_passes, update, if◌then◌else◌,
}
use nubilo.Store.{Db, Collection, sql_eq}
use nubilo.Sync.Access.{find_collection, root_of}
use nubilo.Sync.Collections.{live_at}
use nubilo.Sync.Tree.{in_ids, subtree, set_root, set_parent}
use nubilo.Sync.Tree.Moves.{reparented}
use nubilo.Sync.Tree.Subtree.{
  Distinct, listed, under_ids, subtree_includes, subtree_sound, subtree_closed, Distinct-row,
  found-row,
}

-- The row before an update of what is found after it.
pub found_before :
    (q p : Collection → Bool) (f : Collection → Collection) (cs : List Collection) (d : Collection)
    → ((x : Collection) → q (f x) ≡ q x)
    → find_row q (update p f cs) ≡ some d
    → (c : Collection) × (find_row q cs ≡ some c) × (d ≡ (if p c then f c else c))
unfolding find_row update
found_before q p f [] d keep h = absurd (ground arith)
found_before q p f (x ∷ xs) d keep h = elim (Bool-cases (q x)) [
  | inl is ↦ (x, ground (arith, is), ground (arith, is, keep x, h))
  | inr isnt ↦
      let (c, e, same) = found_before q p f xs d keep (ground (arith, isnt, keep x, h)) in
      (c, ground (arith, isnt, e), same)
]

update-id :
    (i : String) (p : Collection → Bool) (f : Collection → Collection) (cs : List Collection)
    → ((x : Collection) → (f x).id ≡ x.id)
    → any_row (λ (x : Collection). x.id == i) (update p f cs)
      ≡ any_row (λ (x : Collection). x.id == i) cs
unfolding any_row update
update-id i p f [] own = refl
update-id i p f (c ∷ cs) own = ground (arith, own c, update-id i p f cs own)

pub update-Distinct :
    (p : Collection → Bool) (f : Collection → Collection) (cs : List Collection)
    → ((x : Collection) → (f x).id ≡ x.id)
    → Distinct cs
    → Distinct (update p f cs)
unfolding update
update-Distinct p f [] own d = tt
update-Distinct p f (c ∷ cs) own d =
    let rest = update-Distinct p f cs own d.1 in
    let apart = update-id c.id p f cs own ∙ d.0 in
    elim (Bool-cases (p c)) [
      | inl is ↦ rw is (
        subst (λ i. any_row (λ (x : Collection). x.id == i) (update p f cs) ≡ false) (sym (own c))
            apart,
        rest,
      )
      | inr isnt ↦ rw isnt (apart, rest)
    ]

-- The rows of one id before and after a move.
abbrev pub Trace :
    String → Option String → String → ℕ → List String → Db → String → Collection → Type 0
Trace id to root now ids db cur d =
    (c : Collection) × (mid : Collection) × (find_collection db cur ≡ some c)
    × (find_row (λ (x : Collection). x.id == cur) (reparented id to now db.collections) ≡ some mid)
    × (mid ≡ (if live_at id c then set_parent to now c else c))
    × (d ≡ (if in_ids ids mid then set_root root mid else mid))
    × (mid.id ≡ cur)

pub trace :
    (id : String) (to : Option String) (root : String) (now : ℕ) (ids : List String) (db after : Db)
    (cur : String) (d : Collection)
    → after.collections ≡ update (in_ids ids) (set_root root) (reparented id to now db.collections)
    → find_collection after cur ≡ some d
    → Trace id to root now ids db cur d
unfolding find_collection
trace id to root now ids db after cur d rows h =
    let q : Collection → Bool = λ x. x.id == cur in
    let (mid, e, same) =
      found_before q (in_ids ids) (set_root root) (reparented id to now db.collections) d
        (λ x. refl) (subst (λ cs. find_row q cs ≡ some d) rows h) in
    let (c, e0, same0) =
      found_before q (live_at id) (set_parent to now) db.collections mid (λ x. refl) e in
    (
      c,
      mid,
      e0,
      e,
      same0,
      same,
      (eq_iff mid.id cur).0 (find_row_passes q (reparented id to now db.collections) mid e),
    )

rooted :
    (b : Bool) (root : String) (x : Collection)
    → root_of (if b then set_root root x else x) ≡ (if b then root else root_of x)
unfolding root_of
rooted true root x = refl
rooted false root x = refl

pub rooted_parent :
    (b : Bool) (root : String) (x : Collection)
    → (if b then set_root root x else x).parent_id ≡ x.parent_id
rooted_parent true root x = refl
rooted_parent false root x = refl

reparented_root :
    (b : Bool) (to : Option String) (now : ℕ) (x : Collection)
    → root_of (if b then set_parent to now x else x) ≡ root_of x
unfolding root_of
reparented_root true to now x = refl
reparented_root false to now x = refl

-- An id that the query found has the new root, and another one its old root.
pub trace_root :
    (id : String) (to : Option String) (root : String) (now : ℕ) (ids : List String) (db : Db)
    (cur : String) (d c mid : Collection)
    → mid ≡ (if live_at id c then set_parent to now c else c)
    → d ≡ (if in_ids ids mid then set_root root mid else mid)
    → mid.id ≡ cur
    → root_of d ≡ (if listed cur ids then root else root_of c)
trace_root id to root now ids db cur d c mid was is own =
    let old : root_of mid ≡ root_of c = ap root_of was ∙ reparented_root (live_at id c) to now c in
    let new = ap root_of is ∙ rooted (in_ids ids mid) root mid in
    let at_cur = subst (λ i. root_of d ≡ (if listed i ids then root else root_of mid)) own new in
    subst (λ r. root_of d ≡ (if listed cur ids then root else r)) old at_cur

pub none_under : (ids : List String) → any_row (sql_eq none) ids ≡ false
unfolding any_row
none_under [] = refl
none_under (i ∷ is) = none_under is

pub some_under : (t : String) (ids : List String) → any_row (sql_eq (some t)) ids ≡ listed t ids
unfolding any_row
some_under t [] = refl
some_under t (i ∷ is) = ground (arith, text_eq_sym t i, some_under t is)

-- Of the ids that are not that of the moved collection, one is found where its parent is.
pub linked_there :
    (fuel : ℕ) (id cur : String) (rows : List Collection) (ids : List String) (mid : Collection)
    → Distinct rows
    → subtree fuel rows (id ∷ []) ≡ some ids
    → find_row (λ (x : Collection). x.id == cur) rows ≡ some mid
    → listed cur ids ≡ true
    → (id ≡ cur) ⊎ (under_ids ids mid ≡ true)
unfolding any_row
linked_there fuel id cur rows ids mid d e there h =
    elim (subtree_sound fuel rows (id ∷ []) ids cur e h) [
      | inl first ↦ inl ((eq_iff id cur).0 (ground (arith, first)))
      | inr row ↦ inr (Distinct-row cur (under_ids ids) rows mid d there row)
    ]

pub not_linked :
    (fuel : ℕ) (id cur : String) (rows : List Collection) (ids : List String) (mid : Collection)
    → subtree fuel rows (id ∷ []) ≡ some ids
    → find_row (λ (x : Collection). x.id == cur) rows ≡ some mid
    → listed cur ids ≡ false
    → (under_ids ids mid ≡ false) × ((cur == id) ≡ false)
unfolding any_row
not_linked fuel id cur rows ids mid e there out =
    let closed = subtree_closed fuel rows (id ∷ []) ids cur e in
    let first = subtree_includes fuel rows (id ∷ []) ids id e (ground (arith, eq_refl id)) in
    (
      elim (Bool-cases (under_ids ids mid)) [
        | inr out_of ↦ out_of
        | inl is ↦
            absurd (ground (arith, out, closed (found-row cur (under_ids ids) rows mid there is)))
      ],
      elim (Bool-cases (cur == id)) [
        | inr out_of ↦ out_of
        | inl is ↦
            let hit = subst (λ i. listed i ids ≡ true) (sym ((eq_iff cur id).0 is)) first in
            absurd (ground (arith, out, hit))
      ],
    )
