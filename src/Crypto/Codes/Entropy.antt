-- ===== src/Crypto/Codes/Entropy.antt =====
-- An app password shows all of its random bytes (AppPassword of internal/crypto/crypto.go).
use nubilo.Prelude.{
  ℕ, zero, suc, ◌+◌, ◌*◌, ◌/◌, ◌%◌, ◌^◌, ◌≤◌, ◌<◌, ◌≡◌, ◌≢◌, refl, sym, ap, ◌∙◌, List, [], ◌∷◌,
  ◌++◌, arith, length, take, drop, Every, Every-take,
}
use nubilo.Crypto.Codes.{crockford, packed_from, packed, digits_before, app_password}
use nubilo.Crypto.Codes.Typed.{length-digits_before}

abbrev AreBytes : List ℕ → Type 0
AreBytes = Every (λ (b : ℕ). b < 256)

crockford_injective : (a b : ℕ) → a < 32 → b < 32 → crockford a ≡ crockford b → a ≡ b
unfolding crockford
crockford_injective a b ha hb h = ground (arith, ha, hb, h)

-- What k digits of five bits hold.
abbrev capacity : ℕ → ℕ
capacity zero = 1
capacity (suc k) = 32 * capacity k

cons_head : (x y : ℕ) (xs ys : List ℕ) → ◌≡◌ {A = List ℕ} (x ∷ xs) (y ∷ ys) → (x ≡ y) × (xs ≡ ys)
cons_head x y xs ys h = ground (arith, h)

digits_injective :
    (k n m : ℕ) (out more : List ℕ)
    → n < capacity k
    → m < capacity k
    → digits_before k n out ≡ digits_before k m more
    → (n ≡ m) × (out ≡ more)
unfolding digits_before
digits_injective zero n m out more hn hm h = (omega (arith, hn, hm), h)
digits_injective (suc k) n m out more hn hm h =
    let (high, rest) =
      digits_injective k (n / 32) (m / 32) (crockford (n % 32) ∷ out) (crockford (m % 32) ∷ more)
        (omega (arith, hn)) (omega (arith, hm)) h in
    let (symbol, tail) = cons_head (crockford (n % 32)) (crockford (m % 32)) out more rest in
    let low = crockford_injective (n % 32) (m % 32) (omega arith) (omega arith) symbol in
    (omega (arith, high, low), tail)

-- What may stand before j bytes in 64 bits.
abbrev room : ℕ → ℕ
room zero = 2 ^ 64
room (suc j) = room j / 256

room_fits : (j : ℕ) → room j ≤ 2 ^ 64
room_fits zero = omega arith
room_fits (suc j) = omega (arith, room_fits j)

packed_injective :
    (j n m : ℕ) (bs cs : List ℕ)
    → length bs ≡ j
    → length cs ≡ j
    → AreBytes bs
    → AreBytes cs
    → n < room j
    → m < room j
    → packed_from n bs ≡ packed_from m cs
    → (n ≡ m) × (bs ≡ cs)
unfolding packed_from
packed_injective j n m [] [] lb lc wb wc hn hm h = (h, refl)
packed_injective j n m [] (c ∷ cs) lb lc wb wc hn hm h = absurd (omega (arith, lb, lc))
packed_injective j n m (b ∷ bs) [] lb lc wb wc hn hm h = absurd (omega (arith, lb, lc))
packed_injective zero n m (b ∷ bs) (c ∷ cs) lb lc wb wc hn hm h = absurd (omega (arith, lb))
packed_injective (suc j) n m (b ∷ bs) (c ∷ cs) lb lc wb wc hn hm h =
    let fits = room_fits j in
    let (top, rest) =
      packed_injective j ((n * 256) % 2 ^ 64 + b) ((m * 256) % 2 ^ 64 + c) bs cs (omega (arith, lb))
        (omega (arith, lc)) wb.1 wc.1 (omega (arith, hn, wb.0, fits))
        (omega (arith, hm, wc.0, fits)) h in
    let same : n ≡ m = omega (arith, top, hn, hm, wb.0, wc.0, fits) in
    let byte : b ≡ c = omega (arith, top, hn, hm, wb.0, wc.0, fits) in
    (same, ap (λ x. x ∷ bs) byte ∙ ap (λ xs. c ∷ xs) rest)

append_injective :
    (xs ys cs ds : List ℕ) → length xs ≡ length ys → xs ++ cs ≡ ys ++ ds → (xs ≡ ys) × (cs ≡ ds)
append_injective [] [] cs ds l h = (refl, h)
append_injective [] (y ∷ ys) cs ds l h = absurd (omega (arith, l))
append_injective (x ∷ xs) [] cs ds l h = absurd (omega (arith, l))
append_injective (x ∷ xs) (y ∷ ys) cs ds l h =
    let (head, rest) = cons_head x y (xs ++ cs) (ys ++ ds) h in
    let (front, back) = append_injective xs ys cs ds (omega (arith, l)) rest in
    (ap (λ z. z ∷ xs) head ∙ ap (λ zs. y ∷ zs) front, back)

split_at :
    (k : ℕ) (l : ℕ) (bs : List ℕ)
    → length bs ≡ k + l
    → (length (take k bs) ≡ k) × (length (drop k bs) ≡ l) × (take k bs ++ drop k bs ≡ bs)
split_at zero l bs h = (refl, omega (arith, h), refl)
split_at (suc k) l [] h = absurd (omega (arith, h))
split_at (suc k) l (b ∷ bs) h =
    let (front, back, whole) = split_at k l bs (omega (arith, h)) in
    (omega (arith, front), back, ap (λ xs. b ∷ xs) whole)

drop-AreBytes : (k : ℕ) (bs : List ℕ) → AreBytes bs → AreBytes (drop k bs)
drop-AreBytes zero bs w = w
drop-AreBytes (suc k) [] w = w
drop-AreBytes (suc k) (b ∷ bs) w = drop-AreBytes k bs w.1

packed_bound :
    (j n : ℕ) (bs : List ℕ) → length bs ≡ j → AreBytes bs → n < room j → packed_from n bs < 2 ^ 64
unfolding packed_from
packed_bound j n [] l w h = omega (arith, h, room_fits j)
packed_bound zero n (b ∷ bs) l w h = absurd (omega (arith, l))
packed_bound (suc j) n (b ∷ bs) l w h =
    packed_bound j ((n * 256) % 2 ^ 64 + b) bs (omega (arith, l)) w.1
      (omega (arith, h, w.0, room_fits j))

-- Eight bytes behind thirteen digits.
half_injective :
    (bs cs : List ℕ)
    → length bs ≡ 8
    → length cs ≡ 8
    → AreBytes bs
    → AreBytes cs
    → digits_before 13 (packed bs) [] ≡ digits_before 13 (packed cs) []
    → bs ≡ cs
unfolding packed
half_injective bs cs lb lc wb wc h =
    let (same, _) =
      digits_injective 13 (packed_from 0 bs) (packed_from 0 cs) [] []
        (omega (arith, packed_bound 8 0 bs lb wb (omega arith)))
        (omega (arith, packed_bound 8 0 cs lc wc (omega arith))) h in
    (packed_injective 8 0 0 bs cs lb lc wb wc (omega arith) (omega arith) same).1

take_all : (k : ℕ) (bs : List ℕ) → length bs ≡ k → take k bs ≡ bs
take_all zero [] h = refl
take_all zero (b ∷ bs) h = absurd (omega (arith, h))
take_all (suc k) [] h = refl
take_all (suc k) (b ∷ bs) h = ap (λ xs. b ∷ xs) (take_all k bs (omega (arith, h)))

rest_injective :
    (bs cs : List ℕ)
    → length bs ≡ 8
    → length cs ≡ 8
    → AreBytes bs
    → AreBytes cs
    → digits_before 13 (packed (take 8 bs)) [] ≡ digits_before 13 (packed (take 8 cs)) []
    → bs ≡ cs
rest_injective bs cs lb lc wb wc h =
    let of_bs = ap (λ xs. digits_before 13 (packed xs) []) (take_all 8 bs lb) in
    let of_cs = ap (λ xs. digits_before 13 (packed xs) []) (take_all 8 cs lc) in
    half_injective bs cs lb lc wb wc (sym of_bs ∙ h ∙ of_cs)

same_password :
    (raw other : List ℕ)
    → length raw ≡ 16
    → length other ≡ 16
    → Every (λ (b : ℕ). b < 256) raw
    → Every (λ (b : ℕ). b < 256) other
    → app_password raw ≡ app_password other
    → raw ≡ other
unfolding app_password
same_password raw other lr lo wr wo h =
    let (fr, br, rr) = split_at 8 8 raw lr in
    let (fo, bo, ro) = split_at 8 8 other lo in
    let (first, second) =
      append_injective (digits_before 13 (packed (take 8 raw)) [])
        (digits_before 13 (packed (take 8 other)) [])
        (digits_before 13 (packed (take 8 (drop 8 raw))) [])
        (digits_before 13 (packed (take 8 (drop 8 other))) [])
        (length-digits_before 13 (packed (take 8 raw)) []
          ∙ sym (length-digits_before 13 (packed (take 8 other)) []))
        h in
    let left =
      half_injective (take 8 raw) (take 8 other) fr fo (Every-take (λ (b : ℕ). b < 256) 8 raw wr)
        (Every-take (λ (b : ℕ). b < 256) 8 other wo) first in
    let right =
      rest_injective (drop 8 raw) (drop 8 other) br bo (drop-AreBytes 8 raw wr)
        (drop-AreBytes 8 other wo) second in
    sym rr ∙ ap (λ xs. xs ++ drop 8 raw) left ∙ ap (λ xs. take 8 other ++ xs) right ∙ ro

-- AppPassword loses nothing of its 16 random bytes: two that differ give passwords that differ.
pub app_password_injective :
    (raw other : List ℕ)
    → length raw ≡ 16
    → length other ≡ 16
    → Every (λ (b : ℕ). b < 256) raw
    → Every (λ (b : ℕ). b < 256) other
    → raw ≢ other
    → app_password raw ≢ app_password other
app_password_injective raw other lr lo wr wo differ same =
    differ (same_password raw other lr lo wr wo same)
