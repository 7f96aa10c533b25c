-- ===== src/Auth/Replay.antt =====
-- A signed request is accepted once (AuthenticateRequest of internal/auth/auth.go).
use nubilo.Prelude.{
  ℕ, ◌+◌, ◌≤◌, ◌<◌, ◌≡◌, refl, true, false, Option, none, some, List, [], ◌∷◌, arith,
}
use nubilo.Prelude.Int.{pos, ◌-ℤ◌, i64_exact, -ℤ_parts}
use nubilo.Identity.Device.{Device}
use nubilo.Store.{Db}
use nubilo.Auth.Nonces.{AuthErr, Authenticator, consume_nonce}
use nubilo.Auth.Request.{
  Request, is_accepted, answer_nonce, with_skew, outside_window, check_device, authenticate_signed,
}

-- A request that the server has seen, with the tables at that time.
abbrev pub Call : Type 0
Call = Db × Request

unfoldable pub run : List Call → Authenticator → Authenticator
run [] a = a
run (c ∷ cs) a = run cs (authenticate_signed c.0 c.1 a).1

-- The clock does not run backwards: from time `t` on, over the calls, up to time `u`.
abbrev pub InOrder : ℕ → List Call → ℕ → Type 0
InOrder t [] u = t ≤ u
InOrder t (c ∷ cs) u = (t ≤ c.1.now) × (c.1.now ≤ c.1.later) × InOrder c.1.later cs u

abbrev pub consumed : Request → Authenticator → Option AuthErr × Authenticator
consumed req a = consume_nonce req.later req.header.device_id req.header.nonce req.header.ts a

answer_state : (d : Device) (p : Option AuthErr × Authenticator) → (answer_nonce d p).1 ≡ p.1
answer_state d (none, a) = refl
answer_state d (some e, a) = refl

answer_accepted :
    (d : Device) (p : Option AuthErr × Authenticator)
    → is_accepted (answer_nonce d p).0 ≡ true
    → p.0 ≡ none
answer_accepted d (none, a) h = refl
answer_accepted d (some e, a) h = ground arith

pub check_accepted :
    (req : Request) (t : Option Device) (a : Authenticator)
    → is_accepted (check_device req t a).0 ≡ true
    → ((consumed req a).0 ≡ none) × ((check_device req t a).1 ≡ (consumed req a).1)
unfolding check_device
check_accepted req none a h = ground arith
check_accepted req (some d) a h =
    ground (arith, answer_state d (consumed req a), answer_accepted d (consumed req a))

-- Inside the window, a timestamp that is not negative is at most one window old.
pub window_bound :
    (now s k : ℕ)
    → now < 9223372036854775808
    → s < 9223372036854775808
    → outside_window now (pos s) k ≡ false
    → now ≤ s + k
unfolding outside_window
window_bound now s k now_fits s_fits h =
    let delta = pos now -ℤ pos s in
    let exact = i64_exact delta (record {
      above = ground (arith, -ℤ_parts (pos now) (pos s));
      below = ground (arith, -ℤ_parts (pos now) (pos s));
    }) in
    ground (arith, exact, -ℤ_parts (pos now) (pos s))

pub skew_of : (a : Authenticator) → 0 < (with_skew a).skew_ms
unfolding with_skew
skew_of a = ground arith
