-- ===== src/Docker/FileNames.antt =====
-- What sanitizeFileName of internal/shell/docker/orchestrator.go makes of a name.
use hoster.Prelude.{
  ℕ, ◌≡◌, refl, Bool, true, false, [], ◌∷◌, ◌==◌, map, all, not, arith, Bool-cases, inl, inr,
}
use hoster.Prelude.Text.{Text}
use hoster.Docker.Configs.{is_unsafe, safe, trim_left, trim_right, keep, sanitize_file_name}

abbrev pub all_safe : Text → Bool
all_safe = all (λ c. not (is_unsafe c))

abbrev pub no_underscore_first : Text → Bool
no_underscore_first [] = true
no_underscore_first (c ∷ s) = not (c == b'_')

abbrev pub no_underscore_last : Text → Bool
no_underscore_last [] = true
no_underscore_last (c ∷ []) = not (c == b'_')
no_underscore_last (c ∷ d ∷ s) = no_underscore_last (d ∷ s)

-- A name without unsafe bytes, and without an underscore at either end.
abbrev pub IsClean : Text → Type 0
IsClean s = (all_safe s ≡ true) × (no_underscore_first s ≡ true) × (no_underscore_last s ≡ true)

map-safe : (s : Text) → all_safe (map safe s) ≡ true
unfolding is_unsafe
map-safe [] = refl
map-safe (c ∷ s) = elim (Bool-cases (is_unsafe c)) [
  | inl e ↦ rw e (map-safe s)
  | inr e ↦ rw e (rw e (map-safe s))
]

map-safe_same : (s : Text) → all_safe s ≡ true → map safe s ≡ s
map-safe_same [] h = refl
map-safe_same (c ∷ s) h = ground (arith, map-safe_same s)

trim_left-safe : (s : Text) → all_safe s ≡ true → all_safe (trim_left s) ≡ true
unfolding trim_left
trim_left-safe [] h = refl
trim_left-safe (c ∷ s) h = ground (arith, trim_left-safe s)

trim_left-first : (s : Text) → no_underscore_first (trim_left s) ≡ true
unfolding trim_left
trim_left-first [] = refl
trim_left-first (c ∷ s) = ground (arith, trim_left-first s)

trim_left_same : (s : Text) → no_underscore_first s ≡ true → trim_left s ≡ s
unfolding trim_left
trim_left_same [] h = refl
trim_left_same (c ∷ s) h = ground arith

keep-safe :
    (c : ℕ) (s : Text) → is_unsafe c ≡ false → all_safe s ≡ true → all_safe (keep c s) ≡ true
keep-safe c [] u h = ground arith
keep-safe c (d ∷ s) u h = ground arith

keep-last : (c : ℕ) (s : Text) → no_underscore_last s ≡ true → no_underscore_last (keep c s) ≡ true
keep-last c [] h = ground arith
keep-last c (d ∷ s) h = h

keep-first : (c : ℕ) (s : Text) → (c == b'_') ≡ false → no_underscore_first (keep c s) ≡ true
keep-first c [] u = rw u (rw u refl)
keep-first c (d ∷ s) u = rw u refl

trim_right-safe : (s : Text) → all_safe s ≡ true → all_safe (trim_right s) ≡ true
unfolding trim_right
trim_right-safe [] h = refl
trim_right-safe (c ∷ s) h =
    keep-safe c (trim_right s) (ground arith) (trim_right-safe s (ground arith))

trim_right-last : (s : Text) → no_underscore_last (trim_right s) ≡ true
unfolding trim_right
trim_right-last [] = refl
trim_right-last (c ∷ s) = keep-last c (trim_right s) (trim_right-last s)

trim_right-first :
    (s : Text) → no_underscore_first s ≡ true → no_underscore_first (trim_right s) ≡ true
unfolding trim_right
trim_right-first [] h = refl
trim_right-first (c ∷ s) h = keep-first c (trim_right s) (ground arith)

trim_right_same : (s : Text) → no_underscore_last s ≡ true → trim_right s ≡ s
unfolding trim_right
trim_right_same [] h = refl
trim_right_same (c ∷ []) h = ground arith
trim_right_same (c ∷ d ∷ s) h = rw (trim_right_same (d ∷ s) h)

-- sanitizeFileName always gives a clean name, and leaves a clean name as it is; a clean name has no
-- unsafe byte and no underscore at either end.
pub sanitize_file_name-IsClean :
    (name : Text)
    → IsClean (sanitize_file_name name) × (IsClean name → sanitize_file_name name ≡ name)
unfolding sanitize_file_name
sanitize_file_name-IsClean name = (
  (
    trim_right-safe (trim_left (map safe name)) (trim_left-safe (map safe name) (map-safe name)),
    trim_right-first (trim_left (map safe name)) (trim_left-first (map safe name)),
    trim_right-last (trim_left (map safe name)),
  ),
  unchanged,
)
  where
    unchanged : IsClean name → trim_right (trim_left (map safe name)) ≡ name
    unchanged (s, f, l) =
        rw (map-safe_same name s) (rw (trim_left_same name f) (trim_right_same name l))
