-- ===== src/Tests/Budget.antt =====
-- Witness of Sync/Push/Budget: a create in a collection whose owner has a quota.
use nubilo.Prelude.{◌≢◌, ◌⊎◌, refl, String, arith, eq_iff}
use nubilo.Prelude.Int.{pos, ◌≤ℤ◌, InInt64}
use nubilo.Store.{Op}
use nubilo.Sync.Access.{find_user}
use nubilo.Sync.Types.{ChangeInput}
use nubilo.Sync.Quota.{owner_usage, total_charged, counts_for}
use nubilo.Sync.Push.Budget.{create_within_quota}
use nubilo.Tests.World.{env, phone, world, folder, change, user_of}
use nubilo.Tests.Push.{opened, run}

abbrev draft : ChangeInput
draft = change Op.create "draft" "files" 0

anna_named : ◌≢◌ {A = String} "anna" ""
anna_named e = ground (arith, eq_iff "anna" "")

fifty : InInt64 (pos 50)
fifty = record { above = omega arith; below = omega arith }

create_within_quota_example :
    (owner_usage (run draft).1 "anna" ≤ℤ pos 50)
    ⊎ (owner_usage (run draft).1 "anna" ≤ℤ owner_usage world "anna")
unfolding opened find_user owner_usage total_charged counts_for
create_within_quota_example =
    create_within_quota env phone "k" 9 draft world (run draft).0 (run draft).1
      (folder "files" "anna") (user_of "anna") refl (λ e. omega (arith, e)) refl refl refl
      anna_named refl fifty (omega arith)
