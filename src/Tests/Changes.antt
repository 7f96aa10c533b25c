-- ===== src/Tests/Changes.antt =====
-- Witnesses of what devices read back.
use nubilo.Prelude.{
  ℕ, ◌≡◌, refl, true, false, none, some, List, [], ◌∷◌, find_row, arith, any_row, select, Every,
}
use nubilo.Prelude.Int.{pos}
use nubilo.Sync.Access.{user_scope, scope_filter}
use nubilo.Sync.Changes.{Change, head_seq, page_size, row_visible, to_changes, get_changes}
use nubilo.Sync.Changes.Order.{all_changes}
use nubilo.Sync.Changes.Pages.{pending, page_at, get_changes_page}
use nubilo.Sync.Changes.Privacy.{Permitted, get_changes-Permitted}
use nubilo.Sync.Changes.Pull.{Round, Pulled, pull}
use nubilo.Sync.Changes.Pull.CatchUp.{Works, pull_catches_up}
use nubilo.Sync.Changes.Pull.Failures.{Kept, pull_loses_nothing}
use nubilo.Sync.Push.{find_object}
use nubilo.Sync.Access.{find_collection}
use nubilo.Tests.World.{world}

unfoldable pub opened : ℕ
unfolding head_seq all_changes row_visible to_changes find_row any_row select user_scope
    scope_filter find_object find_collection
opened = 0

abbrev calm : Round
calm = record {
  cancelled = false;
  changes_fails = false;
  reconcile_fails = false;
  applies = λ c. true;
  ack_fails = false;
  set_cursor_fails = false;
}

abbrev rounds : List Round
rounds = calm ∷ calm ∷ calm ∷ calm ∷ calm ∷ []

calm-Works : (cs : List Change) → Works cs calm
calm-Works cs = record {
  not_cancelled = refl;
  answered = refl;
  applied = every_applies cs;
  acked = refl;
  stored = refl;
}
  where
    every_applies : (cs : List Change) → Every (λ c. calm.applies c ≡ true) cs
    every_applies [] = tt
    every_applies (c ∷ cs) = (refl, every_applies cs)

pull_catches_up_example :
    (t : ℕ) × (pull rounds world (user_scope "ben") (pos 1)
      ≡ some (record {
        applied = pending world (user_scope "ben") 1 "";
        cursor = pos t;
        error = none;
      }))
    × (pending world (user_scope "ben") t "" ≡ [])
unfolding opened
pull_catches_up_example =
    let works = calm-Works (pending world (user_scope "ben") 1 "") in
    pull_catches_up world (user_scope "ben") (omega arith) rounds 1 (omega arith) (omega arith)
      (works, (works, (works, (works, (works, tt)))))

-- A pull in which no change applies.
abbrev failing : List Round
failing = record calm { applies = λ c. false } ∷ calm ∷ calm ∷ calm ∷ calm ∷ []

pull_loses_nothing_example :
    (p : Pulled) × (pull failing world (user_scope "ben") (pos 1) ≡ some p)
    × Kept world (user_scope "ben") (omega arith) 1 p
unfolding opened
pull_loses_nothing_example =
    pull_loses_nothing world (user_scope "ben") (omega arith) failing 1 (omega arith) (omega arith)

get_changes_page_example :
    get_changes world (user_scope "ben") (pos 1) (pos 1) ""
    ≡ page_at 1 (page_size (pos 1)) (pending world (user_scope "ben") 1 "")
unfolding head_seq
get_changes_page_example =
    get_changes_page world (user_scope "ben") 1 (pos 1) "" (omega arith) (omega arith)

get_changes-Permitted_example :
    Every (Permitted world "ben") (get_changes world (user_scope "ben") (pos 1) (pos 10) "").changes
get_changes-Permitted_example = get_changes-Permitted world "ben" "" (pos 1) (pos 10)
