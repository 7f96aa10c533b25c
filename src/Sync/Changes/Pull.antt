-- ===== src/Sync/Changes/Pull.antt =====
-- The agent's pull loop: pull of internal/agent/sync.go. What the calls of applyChange, Ack, SetCursor
-- and reconcile answer is an argument, and the server's tables stay the same during the loop.
pub mod CatchUp
pub mod Failures
use nubilo.Prelude.{
  Bool, true, false, not, ◌&&◌, select, Option, none, some, List, [], ◌∷◌, ◌++◌, if◌then◌else◌,
}
use nubilo.Prelude.Int.{ℤ, pos, ltb_ℤ}
use nubilo.Store.{Db}
use nubilo.Sync.Access.{Scope}
use nubilo.Sync.Changes.{Change, ChangesResult, get_changes}

-- Why a pull stops: ctx, Changes, reconcile, applyChange, Ack and SetCursor.
pub data PullErr : Type 0 where
  cancelled changes reconcile apply_change ack set_cursor : PullErr

-- What happens to one round of the loop outside it: which call fails, and which changes applyChange
-- applies.
pub record Round : Type 0 where
  pub cancelled : Bool
  pub changes_fails : Bool
  pub reconcile_fails : Bool
  pub applies : Change → Bool
  pub ack_fails : Bool
  pub set_cursor_fails : Bool

-- The changes that applyChange has applied, in this order; the cursor that the agent has stored; and the
-- error that pull returns.
pub record Pulled : Type 0 where
  pub applied : List Change
  pub cursor : ℤ
  pub error : Option PullErr

abbrev pub and_then : List Change → Option Pulled → Option Pulled
and_then cs none = none
and_then cs (some p) = some (record p { applied = cs ++ p.applied })

abbrev stopped : List Change → ℤ → PullErr → Option Pulled
stopped cs cursor e = some (record { applied = cs; cursor = cursor; error = some e })

unfoldable pub all_apply : (Change → Bool) → List Change → Bool
all_apply applies [] = true
all_apply applies (c ∷ cs) = applies c && all_apply applies cs

-- Ack and SetCursor, where the cursor moves on.
unfoldable pub save_cursor : Round → Bool → Option PullErr
save_cursor r false = none
save_cursor r true =
    if r.ack_fails then some ack else if r.set_cursor_fails then some set_cursor else none

-- A round after Changes has answered; `again` goes round again from a cursor.
unfoldable pub handle_page : Round → ℤ → ChangesResult → (ℤ → Option Pulled) → Option Pulled
unfolding all_apply save_cursor
handle_page r since res again =
    let next = if ltb_ℤ since res.next_seq then res.next_seq else since in
    if res.need_reconcile
    then (if r.reconcile_fails
        then stopped [] since reconcile
        else if r.set_cursor_fails
        then stopped [] since set_cursor
        else again res.next_seq)
    else if not (all_apply r.applies res.changes)
    then stopped (select r.applies res.changes) since apply_change
    else elim (save_cursor r (ltb_ℤ since res.next_seq)) [
      | some e ↦ stopped res.changes since e
      | none ↦
          if res.has_more
          then and_then res.changes (again next)
          else some (record { applied = res.changes; cursor = next; error = none })
    ]

-- One element of the list for each round; none where they run out.
unfoldable pub pull : List Round → Db → Scope → ℤ → Option Pulled
unfolding handle_page
pull [] db sc since = none
pull (r ∷ rounds) db sc since =
    let again = pull rounds db sc in
    if r.cancelled
    then stopped [] since cancelled
    else if r.changes_fails
    then stopped [] since changes
    else handle_page r since (get_changes db sc since (pos 200) "") again
