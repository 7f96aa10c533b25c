-- ===== src/Sync/Tree/Owners.antt =====
-- A move keeps the owner of a tree (SetCollectionParent of internal/syncengine/lookup.go).
use nubilo.Prelude.{
  ℕ, ◌≡◌, sym, ap, ◌∙◌, subst, inl, inr, String, true, Option, some, List, ◌==◌, arith, eq_iff,
  Bool-cases, find_row_passes, if◌then◌else◌,
}
use nubilo.Store.{Db, Collection, or_empty}
use nubilo.Sync.Access.{find_collection}
use nubilo.Sync.Collections.{live_at}
use nubilo.Sync.Tree.{in_ids, set_root, set_parent}
use nubilo.Sync.Tree.Moves.{Moved, moved, OwnerKept}
use nubilo.Sync.Tree.Trace.{trace}

-- A collection has the owner of its parent.
abbrev pub OwnersAgree : Db → Type 0
OwnersAgree db =
    (cur : String) (c : Collection) (parent : String) (p : Collection)
    → find_collection db cur ≡ some c
    → c.parent_id ≡ some parent
    → find_collection db parent ≡ some p
    → or_empty c.owner_user_id ≡ or_empty p.owner_user_id

same_owner :
    (id : String) (to : Option String) (root : String) (now : ℕ) (ids : List String)
    (c mid d : Collection)
    → mid ≡ (if live_at id c then set_parent to now c else c)
    → d ≡ (if in_ids ids mid then set_root root mid else mid)
    → or_empty d.owner_user_id ≡ or_empty c.owner_user_id
same_owner id to root now ids c mid d was is = ground (arith, was, is)

new_parent :
    (id : String) (to : Option String) (root : String) (now : ℕ) (ids : List String)
    (c mid d : Collection)
    → mid ≡ (if live_at id c then set_parent to now c else c)
    → d ≡ (if in_ids ids mid then set_root root mid else mid)
    → d.parent_id ≡ (if live_at id c then to else c.parent_id)
new_parent id to root now ids c mid d was is = ground (arith, was, is)

own_row :
    (db : Db) (id cur : String) (c c0 : Collection)
    → find_collection db id ≡ some c0
    → find_collection db cur ≡ some c
    → live_at id c ≡ true
    → c ≡ c0
unfolding find_collection
own_row db id cur c c0 e0 e live =
    let own =
      (eq_iff c.id cur).0 (find_row_passes (λ (x : Collection). x.id == cur) db.collections c e) in
    let here = (eq_iff c.id id).0 (ground (arith, live)) in
    let at_id = subst (λ i. find_collection db i ≡ some c) (sym own ∙ here) e in
    ground (arith, at_id, e0)

pub Moved-OwnersAgree :
    (fuel : ℕ) (db after : Db) (id : String) (to : Option String) (root : String) (c0 : Collection)
    → find_collection db id ≡ some c0
    → OwnerKept db to c0
    → Moved fuel db id to root after
    → OwnersAgree db
    → OwnersAgree after
Moved-OwnersAgree fuel db after id to root c0 e0 kept (moved now ids sub rows) agree cur d t q found
      up there =
    let (c, mid, e, _, was, is, _) = trace id to root now ids db after cur d rows found in
    let (p, mid_p, e_p, _, was_p, is_p, _) = trace id to root now ids db after t q rows there in
    let owner_d = same_owner id to root now ids c mid d was is in
    let owner_q = same_owner id to root now ids p mid_p q was_p is_p in
    let parent = new_parent id to root now ids c mid d was is in
    elim (Bool-cases (live_at id c)) [
      | inl live ↦
          let one = own_row db id cur c c0 e0 e live in
          let goes : to ≡ some t = ground (arith, parent, live, up) in
          owner_d
          ∙ ap (λ (x : Collection). or_empty x.owner_user_id) one
          ∙ kept t p goes e_p
          ∙ sym owner_q
      | inr still ↦
          let stays : c.parent_id ≡ some t = ground (arith, parent, still, up) in
          owner_d ∙ agree cur c t p e stays e_p ∙ sym owner_q
    ]
