-- ===== src/Sync/Changes/Pages.antt =====
-- Paging through GetChanges, as the agent's pull loop does (internal/agent/sync.go), misses nothing and
-- repeats nothing.
use nubilo.Prelude.{
  ℕ, zero, suc, ◌+◌, ◌≤◌, ◌≡◌, refl, ap, ◌∙◌, String, false, List, [], ◌∷◌, arith, length, take,
  take_all, ltb, if◌then◌else◌,
}
use nubilo.Prelude.Int.{ℤ, pos, ltb_ℤ}
use nubilo.Prelude.Sorted.{past, last_key}
use nubilo.Store.{Db}
use nubilo.Sync.Access.{Scope}
use nubilo.Sync.Push.Others.{IsOrdered}
use nubilo.Sync.Changes.{
  Change, ChangesResult, page_size, page_of, last_seq_of, get_changes, head_seq,
}
use nubilo.Sync.Changes.Order.{all_changes, change_seq, first_rows}

-- What the caller has not seen yet, from cursor `s` on.
abbrev pub pending : Db → Scope → ℕ → String → List Change
pending db sc s collection_id = past change_seq s (all_changes db sc collection_id)

module _ {ℓ} {A : Type ℓ} where
  take_less : (n : ℕ) (xs : List A) → ltb n (length (take (suc n) xs)) ≡ ltb n (length xs)
  take_less zero [] = refl
  take_less zero (x ∷ xs) = ground arith
  take_less (suc n) [] = refl
  take_less (suc n) (x ∷ xs) = ground (arith, take_less n xs)

  take-take : (n : ℕ) (xs : List A) → take n (take (suc n) xs) ≡ take n xs
  take-take zero xs = refl
  take-take (suc n) [] = refl
  take-take (suc n) (x ∷ xs) = ap (λ ys. x ∷ ys) (take-take n xs)

last_seq_of-take :
    (s n : ℕ) (cs : List Change)
    → last_seq_of (pos s) (take n cs) ≡ pos (last_key change_seq s n cs)
unfolding last_seq_of
last_seq_of-take s zero cs = refl
last_seq_of-take s (suc n) [] = refl
last_seq_of-take s (suc n) (c ∷ cs) = last_seq_of-take c.seq n cs

-- A page over the first rows is the page over all that is pending.
page_changes :
    (n : ℕ) (cs : List Change)
    → (if ltb n (length (take (suc n) cs)) then take n (take (suc n) cs) else take (suc n) cs)
      ≡ take n cs
page_changes n cs =
    ground (arith, take_less n cs, take-take n cs, take_all n cs, take_all (suc n) cs)

abbrev pub page_at : ℕ → ℕ → List Change → ChangesResult
page_at s n cs = record {
  changes = take n cs;
  next_seq = pos (last_key change_seq s n cs);
  has_more = ltb n (length cs);
  need_reconcile = false;
}

page_of-take : (s n : ℕ) (cs : List Change) → page_of (pos s) n (take (suc n) cs) ≡ page_at s n cs
unfolding page_of
page_of-take s n cs = ground (
  arith,
  page_changes n cs,
  take_less n cs,
  last_seq_of-take s n cs,
  ap (last_seq_of (pos s)) (page_changes n cs),
)

-- One page of GetChanges, from a cursor up to the head: the first changes that are pending, as many as
-- the page holds; the cursor after the last of them; and whether more are pending.
pub get_changes_page :
    (db : Db) (sc : Scope) (s : ℕ) (limit : ℤ) (collection_id : String)
    → IsOrdered db
    → s ≤ head_seq db
    → get_changes db sc (pos s) limit collection_id
      ≡ page_at s (page_size limit) (pending db sc s collection_id)
unfolding get_changes
get_changes_page db sc s limit collection_id w h =
    let size = page_size limit in
    let fits : ltb_ℤ (pos (head_seq db)) (pos s) ≡ false = ground arith in
    let next : size + 1 ≡ suc size = omega arith in
    rw fits (
      ap (page_of (pos s) size) (
        first_rows db sc s (size + 1) collection_id w
        ∙ ap (λ m. take m (pending db sc s collection_id)) next)
      ∙ page_of-take s size (pending db sc s collection_id))
