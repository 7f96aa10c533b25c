-- ===== src/Crypto/Codes/Typed.antt =====
-- What a person may type for a pairing code (NormalizePairingCode of internal/crypto/crypto.go).
use nubilo.Prelude.{
  ℕ, zero, suc, ◌+◌, ◌/◌, ◌%◌, ◌≤◌, ◌<◌, ◌≡◌, refl, inl, inr, false, List, [], ◌∷◌, ◌++◌, arith,
  Bool-cases, nat_eq, length, take, drop, Every,
}
use nubilo.Crypto.Codes.{
  crockford, packed, digits_before, pairing_code, format_pairing_code, normal_byte, is_separator,
  normalize_pairing_code,
}

-- One byte typed for one byte of the code: itself, a small letter, or a letter that looks like a digit.
pub data Typed : ℕ → ℕ → Type 0 where
  exact : {c : ℕ} → Typed c c
  small : {c : ℕ} → 65 ≤ c → c ≤ 90 → Typed (c + 32) c
  letter_o : Typed 79 48
  small_o : Typed 111 48
  letter_i : Typed 73 49
  small_i : Typed 105 49
  letter_l : Typed 76 49
  small_l : Typed 108 49

-- A text typed for a code, with dashes and spaces anywhere.
pub data Spelling : List ℕ → List ℕ → Type 0 where
  end : Spelling [] []
  dash : {s code : List ℕ} → Spelling s code → Spelling (45 ∷ s) code
  space : {s code : List ℕ} → Spelling s code → Spelling (32 ∷ s) code
  byte : {t c : ℕ} {s code : List ℕ} → Typed t c → Spelling s code → Spelling (t ∷ s) (c ∷ code)

-- A byte of the alphabet.
abbrev pub IsSymbol : ℕ → Type 0
IsSymbol c = (d : ℕ) × (d < 32) × (crockford d ≡ c)

symbol_range : (c : ℕ) → IsSymbol c → (is_separator c ≡ false) × (normal_byte c ≡ c)
unfolding crockford is_separator normal_byte
symbol_range c (d, small_d, is) = ground (arith, small_d, is)

Typed-byte : (t c : ℕ) → Typed t c → IsSymbol c → (is_separator t ≡ false) × (normal_byte t ≡ c)
unfolding crockford is_separator normal_byte
Typed-byte t c exact s = symbol_range c s
Typed-byte t c (small from to) (d, few, is) = ground (arith, few, is, from, to)
Typed-byte t c letter_o s = (refl, refl)
Typed-byte t c small_o s = (refl, refl)
Typed-byte t c letter_i s = (refl, refl)
Typed-byte t c small_i s = (refl, refl)
Typed-byte t c letter_l s = (refl, refl)
Typed-byte t c small_l s = (refl, refl)

spelled :
    (s code : List ℕ) → Spelling s code → Every IsSymbol code → normalize_pairing_code s ≡ code
unfolding normalize_pairing_code is_separator
spelled s code end w = refl
spelled s code (dash rest) w = spelled _ code rest w
spelled s code (space rest) w = spelled _ code rest w
spelled s code (byte {t} {c} typed rest) w =
    let here = Typed-byte t c typed w.0 in
    let tail = spelled _ _ rest w.1 in ground (arith, here, tail)

digits-IsSymbol :
    (k n : ℕ) (out : List ℕ) → Every IsSymbol out → Every IsSymbol (digits_before k n out)
unfolding digits_before
digits-IsSymbol zero n out w = w
digits-IsSymbol (suc k) n out w =
    digits-IsSymbol k (n / 32) (crockford (n % 32) ∷ out) ((n % 32, omega arith, refl), w)

pub length-digits_before :
    (k n : ℕ) (out : List ℕ) → length (digits_before k n out) ≡ k + length out
unfolding digits_before
length-digits_before zero n out = omega arith
length-digits_before (suc k) n out =
    omega (arith, length-digits_before k (n / 32) (crockford (n % 32) ∷ out))

spells_itself : (code : List ℕ) → Spelling code code
spells_itself [] = end
spells_itself (c ∷ code) = byte exact (spells_itself code)

-- A dash after any number of bytes.
dashed : (k : ℕ) (code : List ℕ) → Spelling (take k code ++ 45 ∷ drop k code) code
dashed zero code = dash (spells_itself code)
dashed (suc k) [] = dash end
dashed (suc k) (c ∷ code) = byte exact (dashed k code)

formatted : (code : List ℕ) → Spelling (format_pairing_code code) code
unfolding format_pairing_code
formatted code = elim (Bool-cases (nat_eq (length code) 10)) [
  | inl e ↦ rw e (dashed 5 code)
  | inr e ↦ rw e (spells_itself code)
]

-- A pairing code of PairingCode has ten bytes and comes back from what a person makes of it: in small
-- or capital letters, with O for 0, I or L for 1, and with dashes and spaces anywhere, as also from
-- its form with a dash in the middle.
pub normalize-pairing_code :
    (raw s : List ℕ)
    → Spelling s (pairing_code raw)
    → (normalize_pairing_code s ≡ pairing_code raw)
      × (normalize_pairing_code (format_pairing_code (pairing_code raw)) ≡ pairing_code raw)
      × (length (pairing_code raw) ≡ 10)
unfolding pairing_code
normalize-pairing_code raw s h =
    let code = pairing_code raw in
    let symbols = digits-IsSymbol 10 (packed raw) [] tt in
    (
      spelled s code h symbols,
      spelled (format_pairing_code code) code (formatted code) symbols,
      length-digits_before 10 (packed raw) [],
    )
