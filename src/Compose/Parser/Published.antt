-- ===== src/Compose/Parser/Published.antt =====
-- The published port of a service: strconv.ParseUint as convertService of
-- internal/core/compose/parser.go calls it.
use hoster.Prelude.{
  ℕ, ◌+◌, ◌*◌, ◌-◌, ◌<◌, ◌≤◌, ◌≡◌, ◌≢◌, refl, ap, ◌⊎◌, inl, inr, true, false, none, some, [], ◌∷◌,
  if◌then◌else◌, arith, Bool-cases, all,
}
use hoster.Prelude.Text.{Text, is_digit}
use hoster.Compose.Loaded.{parse_digits, published_port, below_32}

-- The number of decimal digits, the first with the highest weight, and that weight.
abbrev pub weight : Text → ℕ
weight [] = 1
weight (c ∷ s) = 10 * weight s

abbrev pub decimal : Text → ℕ
decimal [] = 0
decimal (c ∷ s) = (c - b'0') * weight s + decimal s

parse_digits_decimal :
    (s : Text) (n : ℕ)
    → parse_digits n s ≡ (if all is_digit s then some (n * weight s + decimal s) else none)
unfolding parse_digits
parse_digits_decimal [] n = ap some (omega arith)
parse_digits_decimal (c ∷ s) n =
    let d = c - b'0' in
    let e : (n * 10 + d) * weight s + decimal s ≡ n * (10 * weight s) + (d * weight s + decimal s) =
      omega arith in
    rw (parse_digits_decimal s (n * 10 + d)) (elim (Bool-cases (is_digit c)) [
      | inr b ↦ rw b refl
      | inl b ↦
          rw b (elim (Bool-cases (all is_digit s)) [ inl h ↦ rw h (ap some e) | inr h ↦ rw h refl ])
    ])

-- Decimal digits of a number below 2^32 give the number, and every other text gives 0.
abbrev pub IsPublished : Text → ℕ → Type 0
IsPublished t n =
    (t ≢ [] → all is_digit t ≡ true → decimal t < 4294967296 → n ≡ decimal t)
    × ((t ≡ []) ⊎ (all is_digit t ≡ false) ⊎ (4294967296 ≤ decimal t) → n ≡ 0)

below_32_cases :
    (n : ℕ) → (n < 4294967296 → below_32 (some n) ≡ n) × (4294967296 ≤ n → below_32 (some n) ≡ 0)
below_32_cases n = (λ h. ground arith, λ h. ground arith)

pub published_port-IsPublished : (t : Text) → IsPublished t (published_port t)
unfolding published_port
published_port-IsPublished [] = (λ e. cc, λ h. refl)
published_port-IsPublished (c ∷ s) =
    let t = c ∷ s in
    let same : 0 * weight t + decimal t ≡ decimal t = omega arith in
    rw (parse_digits_decimal t 0) (
      rw same (elim (Bool-cases (all is_digit t)) [
        | inl b ↦ rw b (
          λ e d h. (below_32_cases (decimal t)).0 h,
          λ m. elim m [
            | inl e ↦ cc
            | inr (inl e) ↦ cc
            | inr (inr h) ↦ (below_32_cases (decimal t)).1 h
          ],
        )
        | inr b ↦ rw b (λ e d h. cc, λ m. refl)
      ]))
