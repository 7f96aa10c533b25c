-- ===== src/Auth/Nonces.antt =====
-- The cache of nonces: Authenticator, Start, startLocked and consumeNonce of internal/auth/auth.go.
-- A time is in milliseconds; the signed timestamp is the client's int64. A started_at of 0 says that
-- Start was not called, and no list of nonces is Go's nil map.
use nubilo.Prelude.{
  ℕ, ◌+◌, ◌*◌, String, Bool, not, ◌&&◌, ◌||◌, Option, none, some, List, [], ◌∷◌, ◌==◌, nat_eq, ltb,
  leb, length, any_row, select, if◌then◌else◌,
}
use nubilo.Prelude.Int.{ℤ, pos, ◌-ℤ◌, ltb_ℤ}

pub data AuthErr : Type 0 where
  skew not_found revoked no_key body signature replay busy signed_before_start missing_auth
        malformed admin_token :
      AuthErr

pub record Seen : Type 0 where
  pub device : String
  pub nonce : String
  pub ts : ℤ

pub record Authenticator : Type 0 where
  pub skew_ms : ℕ
  pub nonces : Option (List Seen)
  pub started_at : ℕ
  pub last_sweep : ℕ

abbrev pub nonce_sweep_every_ms : ℕ
nonce_sweep_every_ms = 60000

abbrev pub max_nonces : ℕ
max_nonces = 1048576

abbrev pub cached : Authenticator → List Seen
cached a = elim a.nonces [ none ↦ [] | some ns ↦ ns ]

unfoldable pub start_locked : ℕ → Authenticator → Authenticator
start_locked now a = elim a.nonces [
  | none ↦ record a { nonces = some []; last_sweep = now }
  | some ns ↦ a
]

unfoldable pub start : ℕ → Authenticator → Authenticator
unfolding start_locked
start now a =
    let b = start_locked now a in if nat_eq b.started_at 0 then record b { started_at = now } else b

unfoldable pub too_early : ℕ → Authenticator → ℤ → Bool
too_early now a ts =
    not (nat_eq a.started_at 0)
    && (ltb now (a.started_at + 2 * a.skew_ms) && ltb_ℤ ts (pos a.started_at))

-- Drops what is older than two windows, once a minute or when the cache is full.
unfoldable pub sweep : ℕ → Authenticator → Authenticator
sweep now a =
    let cutoff = pos now -ℤ pos (2 * a.skew_ms) in
    if leb (a.last_sweep + nonce_sweep_every_ms) now || leb max_nonces (length (cached a))
    then record a {
      nonces = some (select (λ (x : Seen). not (ltb_ℤ x.ts cutoff)) (cached a));
      last_sweep = now;
    }
    else a

unfoldable pub nonce_key : String → String → Seen → Bool
nonce_key device nonce x = x.device == device && x.nonce == nonce

-- The map's insert, behind the tests for a replay and for a full cache.
unfoldable pub remember : String → String → ℤ → Authenticator → Option AuthErr × Authenticator
unfolding nonce_key
remember device nonce ts a =
    if any_row (nonce_key device nonce) (cached a)
    then (some replay, a)
    else if leb max_nonces (length (cached a))
    then (some busy, a)
    else (
      none,
      record a { nonces = some (record { device = device; nonce = nonce; ts = ts } ∷ cached a) },
    )

-- none where the nonce is accepted.
unfoldable pub consume_nonce :
    ℕ → String → String → ℤ → Authenticator → Option AuthErr × Authenticator
unfolding start_locked too_early sweep remember
consume_nonce now device nonce ts a =
    let b = start_locked now a in
    if too_early now b ts
    then (some signed_before_start, b)
    else remember device nonce ts (sweep now b)
