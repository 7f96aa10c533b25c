-- ===== src/Tests/Auth.antt =====
-- Witnesses of signed requests, and three runs at the edges of the window.
use nubilo.Prelude.{
  ℕ, zero, suc, ◌≡◌, ◌≢◌, ◌⊎◌, refl, true, false, none, some, List, [], ◌∷◌, length, find_row,
  select, any_row,
}
use nubilo.Prelude.Int.{ℤ, pos, negsuc, ◌-ℤ◌, i64}
use nubilo.Identity.Device.{Device, revoked}
use nubilo.Store.{Db}
use nubilo.Sync.Access.{find_user}
use nubilo.Auth.Nonces.{Authenticator, start, consume_nonce}
use nubilo.Auth.Request.{
  AdminCheck, Request, accepted, readable, local_admin, admin_device, authenticate, is_accepted,
  authenticate_signed, get_device, joined, check_device,
}
use nubilo.Auth.Replay.{run}
use nubilo.Auth.Accepted.{accepted_signed}
use nubilo.Tests.World.{world, phone}

abbrev pub zeros : ℕ → List ℕ
zeros zero = []
zeros (suc n) = 0 ∷ zeros n

abbrev keyed : Device
keyed = record phone { public_key = zeros 32 }

abbrev server : Db
server = record world { devices = keyed ∷ [] }

abbrev pub fresh : Authenticator
fresh = record { skew_ms = 60000; nonces = none; started_at = 0; last_sweep = 0 }

-- A request that was signed at `ts`, comes in at `now` and whose body has arrived at `later`.
abbrev pub at : ℤ → ℕ → ℕ → Request
at ts now later = record {
  header = record { device_id = "phone"; ts = ts; nonce = "0123456789abcdef" };
  now = now;
  later = later;
  has_body = true;
  signed = λ key. true;
}

unfoldable pub computing : ℕ
unfolding authenticate authenticate_signed check_device consume_nonce start run get_device joined
    find_user find_row select any_row revoked i64 ◌-ℤ◌
computing = 0

abbrev first : Request
first = at (pos 1000000) 1000010 1000020

abbrev again : Request
again = at (pos 1000000) 1030000 1030010

abbrev known : Device
known = record keyed { user_role = nubilo.Identity.Device.UserRole.admin }

abbrev tokens : AdminCheck
tokens = record { admin_tok = 7 ∷ []; sha256 = λ bs. bs; loopback = true }

accepted_signed_example :
    (◌≢◌ {A = List ℕ} [] []
      × (known ≡ local_admin)
      × (length tokens.admin_tok ≢ 0)
      × (tokens.loopback ≡ true)
      × (tokens.sha256 [] ≡ tokens.sha256 tokens.admin_tok))
    ⊎ (◌≡◌ {A = List ℕ} [] []
        × (req : Request) × (readable first ≡ readable req)
        × (get_device server req.header.device_id ≡ some known)
        × (revoked known ≡ false)
        × (length known.public_key ≡ 32)
        × (req.signed known.public_key ≡ true))
unfolding computing
accepted_signed_example = accepted_signed tokens [] (readable first) server fresh known refl

-- With the admin token from a loopback address the answer is the local admin.
admin_login : (authenticate tokens (7 ∷ []) (readable first) server fresh).0 ≡ accepted local_admin
unfolding computing admin_device
admin_login = refl

-- A client whose clock is ahead: its request is accepted again after a restart.
abbrev ahead : Request
ahead = at (pos 1030000) 1000000 1000000

replayed_after_restart :
    (is_accepted (authenticate_signed server ahead (start 900000 fresh)).0 ≡ true)
    × (is_accepted
          (authenticate_signed server (at (pos 1030000) 1031000 1031000) (start 1010000 fresh)).0
        ≡ true)
unfolding computing
replayed_after_restart = (refl, refl)

-- A body that takes two windows to arrive: the request is accepted a second time.
replayed_slowly :
    is_accepted
      (authenticate_signed server
        (at (pos 1000000) 1030000 1130000)
        (authenticate_signed server first fresh).1).0
    ≡ true
unfolding computing
replayed_slowly = refl

-- A timestamp 2 ^ 63 ms before the clock passes the window.
far_outside :
    is_accepted
      (authenticate_signed server (at (negsuc 9223372036853775807) 1000000 1000000) fresh).0
    ≡ true
unfolding computing
far_outside = refl
