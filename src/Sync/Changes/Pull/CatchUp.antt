-- ===== src/Sync/Changes/Pull/CatchUp.antt =====
-- The pull loop of internal/agent/sync.go where no call of it fails.
use nubilo.Prelude.{
  ℕ, zero, suc, ◌≤◌, ◌<◌, ◌≡◌, sym, ap, ◌∙◌, inl, inr, Bool, true, false, Every, Option, none, some,
  List, [], ◌∷◌, ◌++◌, arith, refl, subst, Bool-cases, length, take, drop, take_all, drop_all,
  length-drop, take-append-drop, ltb, ltb→lt, if◌then◌else◌,
}
use nubilo.Prelude.Int.{ℤ, pos, ltb_ℤ}
use nubilo.Prelude.Sorted.{
  Ascending, past-past, past-Ascending, last_key, last_key-le, past-last_key,
}
use nubilo.Store.{Db}
use nubilo.Sync.Access.{Scope}
use nubilo.Sync.Push.Others.{IsOrdered}
use nubilo.Sync.Changes.{Change, get_changes, head_seq, page_size}
use nubilo.Sync.Changes.Order.{all_changes, change_seq, all_changes-Ascending}
use nubilo.Sync.Changes.Pages.{pending, page_at, get_changes_page}
use nubilo.Sync.Changes.Pull.{Round, Pulled, and_then, all_apply, save_cursor, handle_page, pull}

-- No call of the round fails, and every one of the changes applies.
pub record Works (cs : List Change) (r : Round) : Type 0 where
  pub not_cancelled : r.cancelled ≡ false
  pub answered : r.changes_fails ≡ false
  pub applied : Every (λ c. r.applies c ≡ true) cs
  pub acked : r.ack_fails ≡ false
  pub stored : r.set_cursor_fails ≡ false

Every-all_apply :
    (applies : Change → Bool) (n : ℕ) (cs : List Change)
    → Every (λ c. applies c ≡ true) cs
    → all_apply applies (take n cs) ≡ true
unfolding all_apply
Every-all_apply applies zero cs w = refl
Every-all_apply applies (suc n) [] w = refl
Every-all_apply applies (suc n) (c ∷ cs) w = ground (arith, w.0, Every-all_apply applies n cs w.1)

save_cursor-Works : (cs : List Change) (r : Round) (b : Bool) → Works cs r → save_cursor r b ≡ none
unfolding save_cursor
save_cursor-Works cs r true w = ground (arith, w.acked, w.stored)
save_cursor-Works cs r false w = refl

Every-drop : {A : Type 0} (P : A → Type 0) (n : ℕ) (xs : List A) → Every P xs → Every P (drop n xs)
Every-drop P zero xs w = w
Every-drop P (suc n) [] w = tt
Every-drop P (suc n) (x ∷ xs) w = Every-drop P n xs w.1

drop-Works :
    (n : ℕ) (cs : List Change) (rounds : List Round)
    → Every (Works cs) rounds
    → Every (Works (drop n cs)) rounds
drop-Works n cs [] w = tt
drop-Works n cs (r ∷ rounds) w = (
  record {
    not_cancelled = w.0.not_cancelled;
    answered = w.0.answered;
    applied = Every-drop (λ c. r.applies c ≡ true) n cs w.0.applied;
    acked = w.0.acked;
    stored = w.0.stored;
  },
  drop-Works n cs rounds w.1,
)

pub forward : (s t : ℕ) → s ≤ t → (if ltb_ℤ (pos s) (pos t) then pos t else pos s) ≡ pos t
forward s t h = ground arith

-- A page of which every change applies, with the cursor saved.
handle_page-Works :
    (r : Round) (s t : ℕ) (cs : List Change) (again : ℤ → Option Pulled)
    → s ≤ t
    → t ≡ last_key change_seq s 200 cs
    → Works cs r
    → handle_page r (pos s) (page_at s 200 cs) again ≡ (
        if ltb 200 (length cs)
        then and_then (take 200 cs) (again (pos t))
        else some (record { applied = take 200 cs; cursor = pos t; error = none }))
unfolding handle_page
handle_page-Works r s t cs again up is w = ground (
  arith,
  is,
  Every-all_apply r.applies 200 cs w.applied,
  save_cursor-Works cs r (ltb_ℤ (pos s) (pos t)) w,
  forward s t up,
)

pub pull_answered :
    (r : Round) (rounds : List Round) (db : Db) (sc : Scope) (since : ℤ)
    → r.cancelled ≡ false
    → r.changes_fails ≡ false
    → pull (r ∷ rounds) db sc since
      ≡ handle_page r since (get_changes db sc since (pos 200) "") (pull rounds db sc)
unfolding pull
pull_answered r rounds db sc since on fine = simp (on, fine)

module _ (db : Db) (sc : Scope) (w : IsOrdered db) where
  abbrev waiting : ℕ → List Change
  waiting s = pending db sc s ""

  pub waiting-Ascending :
      (s : ℕ) → s ≤ head_seq db → Ascending change_seq s (head_seq db) (waiting s)
  waiting-Ascending s h =
      past-Ascending change_seq 0 s (head_seq db) (all_changes db sc "")
        (all_changes-Ascending db sc "" w) h

  pub page :
      (s : ℕ) → s ≤ head_seq db → get_changes db sc (pos s) (pos 200) "" ≡ page_at s 200 (waiting s)
  unfolding page_size
  page s h = get_changes_page db sc s (pos 200) "" w h

  -- A round in which nothing fails.
  pull_round :
      (r : Round) (rounds : List Round) (s : ℕ)
      → s ≤ head_seq db
      → Works (waiting s) r
      → pull (r ∷ rounds) db sc (pos s) ≡ (
          if ltb 200 (length (waiting s))
          then and_then
              (take 200 (waiting s))
              (pull rounds db sc (pos (last_key change_seq s 200 (waiting s))))
          else some (record {
            applied = take 200 (waiting s);
            cursor = pos (last_key change_seq s 200 (waiting s));
            error = none;
          }))
  unfolding pull
  pull_round r rounds s h w =
      let t = last_key change_seq s 200 (waiting s) in
      let up = last_key-le change_seq s (head_seq db) 200 (waiting s) (waiting-Ascending s h) in
      let run = handle_page-Works r s t (waiting s) (pull rounds db sc) up.0 refl w in
      pull_answered r rounds db sc (pos s) w.not_cancelled w.answered
      ∙ ap (λ p. handle_page r (pos s) p (pull rounds db sc)) (page s h)
      ∙ run

  -- What is pending at the end of a page.
  pub waiting_after :
      (n s : ℕ)
      → s ≤ head_seq db
      → waiting (last_key change_seq s n (waiting s)) ≡ drop n (waiting s)
  waiting_after n s h =
      let t = last_key change_seq s n (waiting s) in
      let up = last_key-le change_seq s (head_seq db) n (waiting s) (waiting-Ascending s h) in
      sym (past-past change_seq s t (all_changes db sc "") up.0)
      ∙ past-last_key change_seq s (head_seq db) n (waiting s) (waiting-Ascending s h)

  -- A device whose cursor is not past the head catches up, where no call of the rounds fails and every
  -- pending change applies: with more rounds than changes are pending, and no write to the server in
  -- between, the pull loop ends without an error and has applied exactly the changes that its user may
  -- see past the cursor, each once and in the order of the journal; past the cursor at the end nothing
  -- is pending.
  pub pull_catches_up :
      (rounds : List Round) (s : ℕ)
      → s ≤ head_seq db
      → length (waiting s) < length rounds
      → Every (Works (waiting s)) rounds
      → (t : ℕ) × (pull rounds db sc (pos s)
          ≡ some (record { applied = waiting s; cursor = pos t; error = none }))
        × (waiting t ≡ [])
  pull_catches_up [] s h enough works = absurd (omega arith)
  pull_catches_up (r ∷ rounds) s h enough works =
      let mid = last_key change_seq s 200 (waiting s) in
      let run = pull_round r rounds s h works.0 in
      let up = last_key-le change_seq s (head_seq db) 200 (waiting s) (waiting-Ascending s h) in
      let left = waiting_after 200 s h in
      elim (Bool-cases (ltb 200 (length (waiting s)))) [
        | inr small ↦ (
          mid,
          run
              ∙ rw small (
                  ap (λ cs. some (record { applied = cs; cursor = pos mid; error = none }))
                    (take_all 200 (waiting s) small)),
          left ∙ drop_all 200 (waiting s) small,
        )
        | inl big ↦
            let (t, rest, none_left) =
              pull_catches_up rounds mid up.1
                (omega (
                  arith,
                  ap length left,
                  length-drop 200 (waiting s),
                  ltb→lt 200 (length (waiting s)) big,
                ))
                (subst (λ cs. Every (Works cs) rounds) (sym left)
                  (drop-Works 200 (waiting s) rounds works.1)) in
            (
              t,
              run
                  ∙ rw big (ap (and_then (take 200 (waiting s))) rest)
                  ∙ ap (λ cs. some (record { applied = cs; cursor = pos t; error = none }))
                      (ap (λ cs. take 200 (waiting s) ++ cs) left
                        ∙ take-append-drop 200 (waiting s)),
              none_left,
            )
      ]
