-- ===== src/Tests/Codes.antt =====
-- Witnesses of pairing codes and app passwords.
use nubilo.Prelude.{ℕ, ◌≡◌, ◌≢◌, ◌<◌, Every, refl, List, [], ◌∷◌, arith, length}
use nubilo.Crypto.Codes.{
  crockford, packed_from, packed, digits_before, pairing_code, app_password, format_pairing_code,
  normalize_pairing_code,
}
use nubilo.Crypto.Codes.Typed.{
  exact, small, end, dash, space, byte, letter_o, normalize-pairing_code,
}
use nubilo.Crypto.Codes.Entropy.{app_password_injective}

abbrev raw : List ℕ
raw = 0 ∷ 0 ∷ 0 ∷ 0 ∷ 0 ∷ 0 ∷ 1 ∷ 75 ∷ []

-- The code is 00000000AB, typed as "OO-000000 ab".
abbrev typed : List ℕ
typed = 79 ∷ 79 ∷ 45 ∷ 48 ∷ 48 ∷ 48 ∷ 48 ∷ 48 ∷ 48 ∷ 32 ∷ 97 ∷ 98 ∷ []

normalize-pairing_code_example :
    (normalize_pairing_code typed ≡ pairing_code raw)
    × (normalize_pairing_code (format_pairing_code (pairing_code raw)) ≡ pairing_code raw)
    × (length (pairing_code raw) ≡ 10)
unfolding pairing_code packed packed_from digits_before crockford
normalize-pairing_code_example = normalize-pairing_code raw typed (
    byte letter_o (
      byte letter_o (
        dash (
          byte exact (
            byte exact (
              byte exact (
                byte exact (
                  byte exact (
                    byte exact (
                      space (
                        byte (small (omega arith) (omega arith))
                          (byte (small (omega arith) (omega arith)) end))))))))))))

abbrev sixteen : List ℕ
sixteen = 1 ∷ 2 ∷ 3 ∷ 4 ∷ 5 ∷ 6 ∷ 7 ∷ 8 ∷ 9 ∷ 10 ∷ 11 ∷ 12 ∷ 13 ∷ 14 ∷ 15 ∷ 255 ∷ []

abbrev bumped : List ℕ
bumped = 1 ∷ 2 ∷ 3 ∷ 4 ∷ 5 ∷ 6 ∷ 7 ∷ 8 ∷ 9 ∷ 10 ∷ 11 ∷ 12 ∷ 13 ∷ 14 ∷ 15 ∷ 254 ∷ []

small_bytes : Every (λ (b : ℕ). b < 256) sixteen
small_bytes = ground arith

small_bumped : Every (λ (b : ℕ). b < 256) bumped
small_bumped = ground arith

app_password_injective_example : app_password sixteen ≢ app_password bumped
app_password_injective_example =
    app_password_injective sixteen bumped refl refl small_bytes small_bumped
      (λ h. ground (arith, h))
