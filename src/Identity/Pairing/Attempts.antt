-- ===== src/Identity/Pairing/Attempts.antt =====
-- How often a pairing session can be tried (internal/identity/identity.go).
use nubilo.Prelude.{ℕ, ◌≤◌, ◌≡◌, false, List, [], ◌∷◌, any_row, Every}
use nubilo.Store.{PairingRow}
use nubilo.Store.Env.{Env}
use nubilo.Identity.Pairing.Change.{has_id}

-- No two sessions have one id.
abbrev Distinct : List PairingRow → Type 0
Distinct [] = Unit
Distinct (r ∷ rs) = (any_row (has_id r.id) rs ≡ false) × Distinct rs

abbrev Few : ℕ → List PairingRow → Type 0
Few limit = Every (λ (r : PairingRow). r.attempts ≤ limit)
