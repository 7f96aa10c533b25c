-- ===== src/Auth/Held.antt =====
-- How long the cache holds a nonce (consumeNonce of internal/auth/auth.go).
use nubilo.Prelude.{
  ℕ, ◌+◌, ◌*◌, ◌≤◌, ◌<◌, ◌≡◌, ◌≢◌, ◌⊎◌, refl, sym, ◌∙◌, subst, inl, inr, String, Bool, true, false,
  not, ◌&&◌, ◌||◌, none, List, [], ◌∷◌, arith, eq_refl, Bool-cases, Option-cases, nat_eq, ltb, leb,
  length, any_row, select,
}
use nubilo.Prelude.Int.{ℤ, pos, negsuc, ◌-ℤ◌, ltb_ℤ, -ℤ_parts}
use nubilo.Auth.Nonces.{
  Seen, Authenticator, cached, start_locked, too_early, sweep, nonce_key, remember, consume_nonce,
  nonce_sweep_every_ms, max_nonces,
}

abbrev pub is_ts : ℕ → ℤ → Bool
is_ts s (pos n) = nat_eq n s
is_ts s (negsuc n) = false

abbrev pub row_of : String → String → ℕ → Seen → Bool
row_of device nonce s x = nonce_key device nonce x && is_ts s x.ts

-- At time `t`, an accepted nonce with timestamp `s` is in the cache, or two windows old.
abbrev pub IsHeld : ℕ → String → String → ℕ → ℕ → Authenticator → Type 0
IsHeld k device nonce s t a =
    (a.skew_ms ≡ k) × ((any_row (row_of device nonce s) (cached a) ≡ true) ⊎ (s + 2 * k < t))

any_row-select :
    (p q : Seen → Bool) (xs : List Seen)
    → ((x : Seen) → p x ≡ true → q x ≡ true)
    → any_row p xs ≡ true
    → any_row p (select q xs) ≡ true
unfolding any_row select
any_row-select p q [] f h = h
any_row-select p q (x ∷ xs) f h = elim (Bool-cases (p x)) [
  | inl is ↦ ground (arith, is, f x is)
  | inr isnt ↦
      let ih = any_row-select p q xs f (ground (arith, h, isnt)) in
      elim (Bool-cases (q x)) [
        | inl stays ↦ ground (arith, ih, isnt, stays)
        | inr goes ↦ ground (arith, ih, goes)
      ]
]

any_row_mono :
    (p q : Seen → Bool) (xs : List Seen)
    → ((x : Seen) → p x ≡ true → q x ≡ true)
    → any_row p xs ≡ true
    → any_row q xs ≡ true
unfolding any_row
any_row_mono p q [] f h = h
any_row_mono p q (x ∷ xs) f h = elim (Bool-cases (p x)) [
  | inl is ↦ ground (arith, f x is)
  | inr isnt ↦ ground (arith, isnt, h, any_row_mono p q xs f)
]

opened :
    (now : ℕ) (a : Authenticator)
    → (cached (start_locked now a) ≡ cached a) × ((start_locked now a).skew_ms ≡ a.skew_ms)
unfolding start_locked
opened now a = elim (Option-cases a.nonces) [
  | inl e ↦ rw e (refl, refl)
  | inr (ns, e) ↦ rw e (refl, refl)
]

young_stays :
    (device nonce : String) (s now k : ℕ) (x : Seen)
    → now ≤ s + 2 * k
    → row_of device nonce s x ≡ true
    → not (ltb_ℤ x.ts (pos now -ℤ pos (2 * k))) ≡ true
young_stays device nonce s now k x young h = ground (arith, -ℤ_parts (pos now) (pos (2 * k)))

module _ (k : ℕ) (device nonce : String) (s : ℕ) where
  pub later-IsHeld :
      (t now : ℕ) (a : Authenticator)
      → t ≤ now
      → IsHeld k device nonce s t a
      → IsHeld k device nonce s now a
  later-IsHeld t now a le (skew, inl row) = (skew, inl row)
  later-IsHeld t now a le (skew, inr old) = (skew, inr (omega (arith, le, old)))

  swept :
      (now : ℕ) (xs : List Seen)
      → any_row (row_of device nonce s) xs ≡ true
      → (any_row
            (row_of device nonce s)
            (select (λ (x : Seen). not (ltb_ℤ x.ts (pos now -ℤ pos (2 * k)))) xs)
          ≡ true)
        ⊎ (s + 2 * k < now)
  swept now xs row = elim (Bool-cases (ltb (s + 2 * k) now)) [
    | inl old ↦ inr (ground arith)
    | inr young ↦ inl (
        any_row-select (row_of device nonce s)
          (λ (x : Seen). not (ltb_ℤ x.ts (pos now -ℤ pos (2 * k)))) xs
          (λ x is. young_stays device nonce s now k x (ground arith) is) row)
  ]

  pub sweep-IsHeld :
      (now : ℕ) (a : Authenticator)
      → IsHeld k device nonce s now a
      → IsHeld k device nonce s now (sweep now a)
  unfolding sweep
  sweep-IsHeld now a (skew, held) =
      elim (Bool-cases
        (leb (a.last_sweep + nonce_sweep_every_ms) now || leb max_nonces (length (cached a)))) [
          | inr not_due ↦ rw not_due (skew, held)
          | inl due ↦ rw due (
            skew,
            elim held [
              | inl row ↦
                  subst
                    (λ j.
                      (any_row (row_of device nonce s) (
                          select (λ (x : Seen). not (ltb_ℤ x.ts (pos now -ℤ pos (2 * j))))
                            (cached a))
                        ≡ true)
                      ⊎ (s + 2 * k < now))
                    (sym skew) (swept now (cached a) row)
              | inr old ↦ inr old
            ],
          )
        ]

  remember-IsHeld :
      (t : ℕ) (d n : String) (ts : ℤ) (a : Authenticator)
      → IsHeld k device nonce s t a
      → IsHeld k device nonce s t (remember d n ts a).1
  unfolding remember any_row
  remember-IsHeld t d n ts a (skew, held) = elim (Bool-cases (any_row (nonce_key d n) (cached a))) [
    | inl hit ↦ rw hit (skew, held)
    | inr fresh ↦ elim (Bool-cases (leb max_nonces (length (cached a)))) [
      | inl full ↦ rw (fresh, full) (skew, held)
      | inr fits ↦
          rw (fresh, fits)
            (skew, elim held [ inl row ↦ inl (ground (arith, row)) | inr old ↦ inr old ])
    ]
  ]

  pub start_locked-IsHeld :
      (t now : ℕ) (a : Authenticator)
      → IsHeld k device nonce s t a
      → IsHeld k device nonce s t (start_locked now a)
  unfolding start_locked
  start_locked-IsHeld t now a held =
      let (rows, skew) = opened now a in
      (
        skew ∙ held.0,
        subst (λ xs. (any_row (row_of device nonce s) xs ≡ true) ⊎ (s + 2 * k < t)) (sym rows)
            held.1,
      )

  pub consume_nonce-IsHeld :
      (now : ℕ) (d n : String) (ts : ℤ) (a : Authenticator)
      → IsHeld k device nonce s now a
      → IsHeld k device nonce s now (consume_nonce now d n ts a).1
  unfolding consume_nonce
  consume_nonce-IsHeld now d n ts a held =
      let b = start_locked now a in
      let open_held = start_locked-IsHeld now now a held in
      elim (Bool-cases (too_early now b ts)) [
        | inl early ↦ rw early open_held
        | inr ripe ↦
            rw ripe (remember-IsHeld now d n ts (sweep now b) (sweep-IsHeld now b open_held))
      ]

  -- A nonce that is held is not accepted again within two windows.
  pub held_refused :
      (now : ℕ) (ts : ℤ) (a : Authenticator)
      → IsHeld k device nonce s now a
      → now ≤ s + 2 * k
      → (consume_nonce now device nonce ts a).0 ≢ none
  unfolding consume_nonce remember
  held_refused now ts a held young h =
      let b = start_locked now a in
      let (skew, swept_held) = sweep-IsHeld now b (start_locked-IsHeld now now a held) in
      elim swept_held [
        | inr old ↦ omega (arith, old, young)
        | inl row ↦
            let hit =
              any_row_mono (row_of device nonce s) (nonce_key device nonce) (cached (sweep now b))
                (λ x is. ground (arith, is)) row in
            elim (Bool-cases (too_early now b ts)) [
              | inl early ↦ ground (arith, early, h)
              | inr ripe ↦ ground (arith, ripe, h, hit)
            ]
      ]

  sweep_skew : (now : ℕ) (a : Authenticator) → (sweep now a).skew_ms ≡ a.skew_ms
  unfolding sweep
  sweep_skew now a = ground arith

  remembered :
      (now : ℕ) (a : Authenticator)
      → a.skew_ms ≡ k
      → (remember device nonce (pos s) a).0 ≡ none
      → IsHeld k device nonce s now (remember device nonce (pos s) a).1
  unfolding remember any_row nonce_key
  remembered now a skew h = elim (Bool-cases (any_row (nonce_key device nonce) (cached a))) [
    | inl hit ↦ absurd (ground (arith, hit, h))
    | inr fresh ↦ elim (Bool-cases (leb max_nonces (length (cached a)))) [
      | inl full ↦ absurd (ground (arith, fresh, full, h))
      | inr fits ↦ rw (fresh, fits) (skew, inl (ground (arith, eq_refl device, eq_refl nonce)))
    ]
  ]

  -- A nonce that is accepted is held.
  pub accepted-IsHeld :
      (now : ℕ) (a : Authenticator)
      → a.skew_ms ≡ k
      → (consume_nonce now device nonce (pos s) a).0 ≡ none
      → IsHeld k device nonce s now (consume_nonce now device nonce (pos s) a).1
  unfolding consume_nonce
  accepted-IsHeld now a skew h =
      let b = start_locked now a in
      let same = opened now a in
      elim (Bool-cases (too_early now b (pos s))) [
        | inl early ↦ absurd (ground (arith, early, h))
        | inr ripe ↦
            let passed : (remember device nonce (pos s) (sweep now b)).0 ≡ none =
              ground (arith, ripe, h) in
            let kept = sweep_skew now b ∙ same.1 ∙ skew in
            rw ripe (remembered now (sweep now b) kept passed)
      ]
