-- ===== src/Crypto/Codes.antt =====
-- Pairing codes and app passwords of internal/crypto/crypto.go, on bytes. What crypto/rand returns is
-- an argument.
pub mod Typed
pub mod Entropy
use nubilo.Prelude.{
  ℕ, zero, suc, ◌+◌, ◌-◌, ◌*◌, ◌/◌, ◌%◌, ◌^◌, Bool, ◌&&◌, ◌||◌, List, [], ◌∷◌, ◌++◌, nat_eq, ltb,
  leb, length, take, drop, if◌then◌else◌,
}

-- "0123456789ABCDEFGHJKMNPQRSTVWXYZ": no I, L, O and U.
unfoldable pub crockford : ℕ → ℕ
crockford d =
    if ltb d 10
    then d + 48
    else if ltb d 18
    then d + 55
    else if ltb d 20
    then d + 56
    else if ltb d 22
    then d + 57
    else if ltb d 27
    then d + 58
    else d + 59

-- n = (n << 8) | b over the bytes, as uint64.
unfoldable pub packed_from : ℕ → List ℕ → ℕ
packed_from n [] = n
packed_from n (b ∷ bs) = packed_from ((n * 256) % 2 ^ 64 + b) bs

unfoldable pub packed : List ℕ → ℕ
unfolding packed_from
packed bs = packed_from 0 bs

-- The loop that writes k digits, the last one first, before what is written.
unfoldable pub digits_before : ℕ → ℕ → List ℕ → List ℕ
unfolding crockford
digits_before zero n out = out
digits_before (suc k) n out = digits_before k (n / 32) (crockford (n % 32) ∷ out)

unfoldable pub pairing_code : List ℕ → List ℕ
unfolding packed digits_before
pairing_code raw = digits_before 10 (packed raw) []

unfoldable pub app_password : List ℕ → List ℕ
unfolding packed digits_before
app_password raw =
    digits_before 13 (packed (take 8 raw)) [] ++ digits_before 13 (packed (take 8 (drop 8 raw))) []

unfoldable pub format_pairing_code : List ℕ → List ℕ
format_pairing_code code = if nat_eq (length code) 10 then take 5 code ++ 45 ∷ drop 5 code else code

unfoldable pub normal_byte : ℕ → ℕ
normal_byte c =
    let u = if leb 97 c && leb c 122 then c - 32 else c in
    if nat_eq u 79 then 48 else if nat_eq u 73 || nat_eq u 76 then 49 else u

unfoldable pub is_separator : ℕ → Bool
is_separator c = nat_eq c 45 || nat_eq c 32

unfoldable pub normalize_pairing_code : List ℕ → List ℕ
unfolding normal_byte is_separator
normalize_pairing_code [] = []
normalize_pairing_code (c ∷ s) =
    let rest = normalize_pairing_code s in if is_separator c then rest else normal_byte c ∷ rest
