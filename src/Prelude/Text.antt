-- ===== src/Prelude/Text.antt =====
-- Text that the program walks: the bytes of a Go string. (A string that is only compared as a whole
-- is the native `String`.)
use Prim.Native.Char.{code}
use Prim.Native.Nat.{ℕ}
use Prim.Native.String.{String}
use mathlib.Core.Path.{◌≡◌, refl, ap}
use mathlib.Core.Bool.{Bool, true, false, ◌&&◌}
use mathlib.Core.List.{List, [], ◌∷◌, ◌++◌}
use mathlib.Core.Logic.{◌↔◌, inl, inr}
use mathlib.Core.Option.{Option, none, some}
use native.Mathlib.Omega.{arith}
use hoster.Prelude.Tests.{◌==◌, leb, if◌then◌else◌, Bool-cases}
use hoster.Prelude.Lists.{length, length-append}

abbrev pub Text : Type 0
Text = List ℕ

-- The bytes of an ASCII literal.
abbrev pub codes : String → Text
codes String.[] = []
codes (String.◌∷◌ c s) = code c ∷ codes s

abbrev pub text_eq : Text → Text → Bool
text_eq [] [] = true
text_eq (a ∷ s) (b ∷ t) = a == b && text_eq s t
text_eq _ _ = false

pub text_eq_iff : (s t : Text) → (text_eq s t ≡ true) ↔ (s ≡ t)
text_eq_iff [] [] = ground arith
text_eq_iff [] (b ∷ t) = ground arith
text_eq_iff (a ∷ s) [] = ground arith
text_eq_iff (a ∷ s) (b ∷ t) = ground (arith, text_eq_iff s t)

pub text_eq_refl : (s : Text) → text_eq s s ≡ true
text_eq_refl s = (text_eq_iff s s).1 refl

abbrev pub is_empty : Text → Bool
is_empty [] = true
is_empty (c ∷ s) = false

abbrev pub is_digit : ℕ → Bool
is_digit c = leb b'0' c && leb c b'9'

abbrev pub is_lower : ℕ → Bool
is_lower c = leb b'a' c && leb c b'z'

abbrev pub is_upper : ℕ → Bool
is_upper c = leb b'A' c && leb c b'Z'

-- strings.HasPrefix, with the text after the prefix.
abbrev pub strip_prefix : Text → Text → Option Text
strip_prefix [] s = some s
strip_prefix (a ∷ p) [] = none
strip_prefix (a ∷ p) (b ∷ s) = if a == b then strip_prefix p s else none

pub strip_prefix-append : (p s : Text) → strip_prefix p (p ++ s) ≡ some s
strip_prefix-append [] s = refl
strip_prefix-append (a ∷ p) s = ground (arith, strip_prefix-append p s)

pub strip_prefix_sound : (p s r : Text) → strip_prefix p s ≡ some r → s ≡ p ++ r
strip_prefix_sound [] s r h = ground arith
strip_prefix_sound (a ∷ p) [] r h = ground arith
strip_prefix_sound (a ∷ p) (b ∷ s) r h = ground (arith, strip_prefix_sound p s r)

-- strings.HasSuffix and TrimSuffix: the text before the suffix.
abbrev pub strip_suffix : Text → Text → Option Text
strip_suffix suffix [] = if text_eq [] suffix then some [] else none
strip_suffix suffix (c ∷ s) =
    let rest = strip_suffix suffix s in
    if text_eq (c ∷ s) suffix then some [] else elim rest [ none ↦ none | some r ↦ some (c ∷ r) ]

pub strip_suffix_sound : (suffix s r : Text) → strip_suffix suffix s ≡ some r → s ≡ r ++ suffix
strip_suffix_sound suffix [] r h = ground (arith, text_eq_iff [] suffix)
strip_suffix_sound suffix (c ∷ s) [] h = ground (arith, text_eq_iff (c ∷ s) suffix)
strip_suffix_sound suffix (c ∷ s) (b ∷ r) h =
    ground (arith, text_eq_iff (c ∷ s) suffix, strip_suffix_sound suffix s r)

pub strip_suffix-append : (suffix s : Text) → strip_suffix suffix (s ++ suffix) ≡ some s
strip_suffix-append suffix [] = empty_case suffix
  where
    empty_case : (suffix : Text) → strip_suffix suffix suffix ≡ some []
    empty_case [] = refl
    empty_case (c ∷ s) = rw (text_eq_refl (c ∷ s))
strip_suffix-append suffix (c ∷ s) = elim (Bool-cases (text_eq (c ∷ (s ++ suffix)) suffix)) [
  | inl e ↦ absurd (longer ((text_eq_iff _ _).0 e))
  | inr e ↦ rw e (rw (strip_suffix-append suffix s))
]
  where
    longer : ¬ (c ∷ (s ++ suffix) ≡ suffix)
    longer e = omega (arith, ap length e, length-append {0} s suffix)
