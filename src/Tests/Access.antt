-- ===== src/Tests/Access.antt =====
-- Witnesses of Sync/Access/Agreement.
use nubilo.Prelude.{◌≡◌, refl, leb, any_row, find_row}
use nubilo.Sync.Access.{access_expr_sql, access_filter, row_access, user_active}
use nubilo.Sync.Access.Agreement.{listing_agrees}
use nubilo.Tests.World.{world, folder}

listing_agrees_example :
    (access_expr_sql world "ben" (folder "files" "anna")
      ≡ row_access world "ben" (folder "files" "anna"))
    × (access_filter world "ben" (folder "files" "anna")
        ≡ leb 1 (row_access world "ben" (folder "files" "anna")))
unfolding any_row find_row user_active
listing_agrees_example =
    listing_agrees world "ben" (folder "files" "anna") (refl, (refl, tt)) refl refl

-- A read-write share is access 2 for the other user.
shared_access : row_access world "ben" (folder "files" "anna") ≡ 2
unfolding row_access find_row any_row
shared_access = refl
