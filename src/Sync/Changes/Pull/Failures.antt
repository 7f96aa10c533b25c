-- ===== src/Sync/Changes/Pull/Failures.antt =====
-- What the pull loop of internal/agent/sync.go leaves where calls of it fail.
use nubilo.Prelude.{
  ◌≢◌, ◌⊎◌, Option-cases, ℕ, ◌≤◌, ◌<◌, ◌≡◌, sym, ap, ◌∙◌, inl, inr, true, false, select, Option,
  none, some, List, [], ◌∷◌, ◌++◌, arith, refl, subst, Bool-cases, length, take, drop_all,
  length-drop, take-append-drop, ltb, ltb→lt,
}
use mathlib.Core.List.{append-nil, append_assoc}
use nubilo.Prelude.Int.{ℤ, pos, ltb_ℤ}
use nubilo.Prelude.Sorted.{last_key, last_key-le}
use nubilo.Store.{Db}
use nubilo.Sync.Access.{Scope}
use nubilo.Sync.Push.Others.{IsOrdered}
use nubilo.Sync.Changes.{Change, head_seq}
use nubilo.Sync.Changes.Order.{change_seq}
use nubilo.Sync.Changes.Pages.{pending, page_at}
use nubilo.Sync.Changes.Pull.{
  PullErr, Round, Pulled, and_then, stopped, all_apply, save_cursor, handle_page, pull, cancelled,
  changes, apply_change,
}
use nubilo.Sync.Changes.Pull.CatchUp.{
  forward, pull_answered, page, waiting_after, waiting-Ascending,
}

-- How a round ends: with an error and the cursor where it was, as the last one, or in a further round.
data RoundEnd (s t : ℕ) (cs : List Change) (again : ℤ → Option Pulled) (o : Option Pulled)
    : Type 0 where
  fails : (p : Pulled) → o ≡ some p → p.cursor ≡ pos s → p.error ≢ none → RoundEnd s t cs again o
  ends :
      ltb 200 (length cs) ≡ false
      → o ≡ some (record { applied = take 200 cs; cursor = pos t; error = none })
      → RoundEnd s t cs again o
  goes_on :
      ltb 200 (length cs) ≡ true
      → o ≡ and_then (take 200 cs) (again (pos t))
      → RoundEnd s t cs again o

fails_with :
    (s t : ℕ) (cs : List Change) (again : ℤ → Option Pulled) (o : Option Pulled)
    (applied : List Change) (e : PullErr)
    → o ≡ stopped applied (pos s) e
    → RoundEnd s t cs again o
fails_with s t cs again o applied e h = fails _ h refl (λ z. ground (arith, z))

page_end :
    (r : Round) (s t : ℕ) (cs : List Change) (again : ℤ → Option Pulled)
    → s ≤ t
    → t ≡ last_key change_seq s 200 cs
    → RoundEnd s t cs again (handle_page r (pos s) (page_at s 200 cs) again)
unfolding handle_page
page_end r s t cs again up is =
    let o = handle_page r (pos s) (page_at s 200 cs) again in
    elim (Bool-cases (all_apply r.applies (take 200 cs))) [
      | inr bad ↦
          fails_with s t cs again o (select r.applies (take 200 cs)) apply_change
            (ground (arith, bad))
      | inl good ↦ elim (Option-cases (save_cursor r (ltb_ℤ (pos s) (pos t)))) [
        | inr (e, lost) ↦ fails_with s t cs again o (take 200 cs) e (ground (arith, is, good, lost))
        | inl saved ↦ elim (Bool-cases (ltb 200 (length cs))) [
          | inl big ↦ goes_on big (ground (arith, is, good, saved, big, forward s t up))
          | inr small ↦ ends small (ground (arith, is, good, saved, small, forward s t up))
        ]
      ]
    ]

module _ (db : Db) (sc : Scope) (w : IsOrdered db) where
  abbrev waiting : ℕ → List Change
  waiting s = pending db sc s ""

  abbrev end_of : ℕ → ℕ
  end_of s = last_key change_seq s 200 (waiting s)

  end_bounds : (s : ℕ) → s ≤ head_seq db → (s ≤ end_of s) × (end_of s ≤ head_seq db)
  end_bounds s h =
      last_key-le change_seq s (head_seq db) 200 (waiting s) (waiting-Ascending db sc w s h)

  round_end :
      (r : Round) (rounds : List Round) (s : ℕ)
      → s ≤ head_seq db
      → RoundEnd s (end_of s) (waiting s) (pull rounds db sc) (pull (r ∷ rounds) db sc (pos s))
  unfolding pull
  round_end r rounds s h =
      let o = pull (r ∷ rounds) db sc (pos s) in
      let again = pull rounds db sc in
      elim (Bool-cases r.cancelled) [
        | inl off ↦ fails_with s (end_of s) (waiting s) again o [] cancelled (simp off)
        | inr on ↦ elim (Bool-cases r.changes_fails) [
          | inl lost ↦ fails_with s (end_of s) (waiting s) again o [] changes (simp (on, lost))
          | inr fine ↦
              let run =
                pull_answered r rounds db sc (pos s) on fine
                ∙ ap (λ p. handle_page r (pos s) p again) (page db sc w s h) in
              subst (RoundEnd s (end_of s) (waiting s) again) (sym run)
                (page_end r s (end_of s) (waiting s) again (end_bounds s h).0 refl)
        ]
      ]

  -- What a pull that started at `s` has left.
  pub record Kept (s : ℕ) (p : Pulled) : Type 0 where
    pub cursor : ℕ
    pub stored : p.cursor ≡ pos cursor
    pub passed : List Change
    pub left : waiting s ≡ passed ++ waiting cursor
    pub more : List Change
    pub applied : p.applied ≡ passed ++ more
    pub all_done : (p.error ≢ none) ⊎ (waiting cursor ≡ [])

  -- The pull loop loses no change, whichever calls of it fail: with more rounds than changes are
  -- pending, a cursor that is not past the head and no write to the server in between, it returns, the
  -- changes that the stored cursor has passed have all been applied, in the order of the journal, and
  -- those that are pending past it are all the others; without an error none is left.
  pub pull_loses_nothing :
      (rounds : List Round) (s : ℕ)
      → s ≤ head_seq db
      → length (waiting s) < length rounds
      → (p : Pulled) × (pull rounds db sc (pos s) ≡ some p) × Kept s p
  pull_loses_nothing [] s h enough = absurd (omega arith)
  pull_loses_nothing (r ∷ rounds) s h enough =
      let t = end_of s in
      let left = waiting_after db sc w 200 s h in
      let split : waiting s ≡ take 200 (waiting s) ++ waiting t =
        sym (ap (λ cs. take 200 (waiting s) ++ cs) left ∙ take-append-drop 200 (waiting s)) in
      elim (round_end r rounds s h) [
        | fails p e stays wrong ↦ (
          p,
          e,
          record {
            cursor = s;
            stored = stays;
            passed = [];
            left = refl;
            more = p.applied;
            applied = refl;
            all_done = inl wrong;
          },
        )
        | ends small e ↦ (
          _,
          e,
          record {
            cursor = t;
            stored = refl;
            passed = take 200 (waiting s);
            left = split;
            more = [];
            applied = sym (append-nil (take 200 (waiting s)));
            all_done = inr (left ∙ drop_all 200 (waiting s) small);
          },
        )
        | goes_on big e ↦
            let (p, run, kept) = pull_loses_nothing rounds t (end_bounds s h).1 (
              omega (
                arith,
                ap length left,
                length-drop 200 (waiting s),
                ltb→lt 200 (length (waiting s)) big,
              )) in
            (
              record p { applied = take 200 (waiting s) ++ p.applied },
              e ∙ ap (and_then (take 200 (waiting s))) run,
              record {
                cursor = kept.cursor;
                stored = kept.stored;
                passed = take 200 (waiting s) ++ kept.passed;
                left =
                    split
                    ∙ ap (λ cs. take 200 (waiting s) ++ cs) kept.left
                    ∙ sym (append_assoc (take 200 (waiting s)) kept.passed (waiting kept.cursor));
                more = kept.more;
                applied =
                    ap (λ cs. take 200 (waiting s) ++ cs) kept.applied
                    ∙ sym (append_assoc (take 200 (waiting s)) kept.passed kept.more);
                all_done = kept.all_done;
              },
            )
      ]
