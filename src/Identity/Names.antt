-- ===== src/Identity/Names.antt =====
-- Names of users and devices: NormalizeUsername and SanitizeName of internal/identity/users.go and
-- identity.go. Trimming, case and the ULID test are the standard library's and the ULID package's.
use Prim.Native.Char.{code}
use nubilo.Prelude.{
  ℕ, String, len, Bool, true, false, not, ◌&&◌, ◌||◌, List, [], ◌∷◌, ◌==◌, nat_eq, leb, ltb,
  any_row, if◌then◌else◌,
}
use nubilo.Store.Env.{Env}
use nubilo.Store.Tx.{Result, ok, err, username, name_refused}

unfoldable pub letter_or_digit : ℕ → Bool
letter_or_digit c = leb b'a' c && leb c b'z' || leb b'0' c && leb c b'9'

unfoldable pub username_char : ℕ → Bool
unfolding letter_or_digit
username_char c = letter_or_digit c || (nat_eq c b'.' || (nat_eq c b'_' || nat_eq c b'-'))

unfoldable pub all_username_chars : String → Bool
all_username_chars String.[] = true
all_username_chars (String.◌∷◌ c s) = username_char (code c) && all_username_chars s

-- The loop over the runes: the marks are allowed after the first one only.
unfoldable pub username_chars : String → Bool
username_chars String.[] = true
username_chars (String.◌∷◌ c s) = letter_or_digit (code c) && all_username_chars s

abbrev pub reserved_usernames : List String
reserved_usernames = "owner" ∷ "admin" ∷ "root" ∷ "system" ∷ []

unfoldable pub is_reserved : String → Bool
is_reserved name = any_row (λ (x : String). x == name) reserved_usernames

unfoldable pub normalize_username : Env → String → Result String
unfolding username_chars is_reserved
normalize_username env name =
    let n = env.to_lower (env.trim_space name) in
    if n == "" || ltb 32 (len n)
    then err username
    else if not (username_chars n)
    then err username
    else if env.valid_id (env.to_upper n)
    then err username
    else if is_reserved n
    then err username
    else ok n

unfoldable pub has_nul : String → Bool
has_nul String.[] = false
has_nul (String.◌∷◌ c s) = nat_eq (code c) 0 || has_nul s

unfoldable pub sanitize_name : Env → String → Result String
unfolding has_nul
sanitize_name env name =
    let n = env.trim_space name in
    if n == "" || ltb 128 (len n)
    then err name_refused
    else if has_nul n
    then err name_refused
    else ok n
