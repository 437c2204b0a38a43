-- ===== src/Engine/Store/Validate.antt =====
-- validate and toInt64 of internal/engine/store.go: the checks on the fields of a row.
--
-- No decoder of the program makes a json.Number, which toInt64 reads too.
use Prim.Native.String.{len}
use hoster.Prelude.{
  ℕ, ◌≤◌, ◌≡◌, ◌≢◌, ◌↔◌, refl, subst, String, Bool, true, false, Option, none, some, List, [], ◌∷◌,
  All, ◌&&◌, not, str_eq, str_eq_iff, if◌then◌else◌, ltb, arith, Option-cases, inl, inr,
}
use hoster.Prelude.Dict.{lookup}
use hoster.Prelude.Int.{ℤ, ltb_ℤ, ◌≤ℤ◌}
use hoster.Engine.{Value, null, text, bytes, json, time, int, int64, float64, bool, Row}
use hoster.Engine.Store.{Field}

pub data Complaint : Type 0 where
  is_required too_short too_long has_invalid_format too_small too_large : Complaint

-- `toInt64`.
unfoldable pub to_int64 : Value → Option ℤ
to_int64 (int n) = some n
to_int64 (int64 n) = some n
to_int64 (float64 n nought) = some n
to_int64 _ = none

-- `!exists || v == nil || v == ""`.
unfoldable pub is_absent : Option Value → Bool
is_absent none = true
is_absent (some null) = true
is_absent (some (text s)) = str_eq s ""
is_absent (some _) = false

abbrev is_below : Option ℕ → ℕ → Bool
is_below none n = false
is_below (some m) n = ltb n m

abbrev is_above : Option ℕ → ℕ → Bool
is_above none n = false
is_above (some m) n = ltb m n

abbrev fails : Option (String → Bool) → String → Bool
fails none s = false
fails (some p) s = not (p s)

abbrev is_less : Option ℤ → ℤ → Bool
is_less none n = false
is_less (some m) n = ltb_ℤ n m

abbrev is_more : Option ℤ → ℤ → Bool
is_more none n = false
is_more (some m) n = ltb_ℤ m n

-- The checks on an integer.
unfoldable pub int_error : Field → ℤ → Option Complaint
int_error f n =
    if is_less f.min_int n
    then some too_small
    else if is_more f.max_int n
    then some too_large
    else none

is_below-false : (o : Option ℕ) (n : ℕ) → (is_below o n ≡ false) ↔ ((m : ℕ) → o ≡ some m → m ≤ n)
is_below-false none n = (λ h m e. cc, λ h. refl)
is_below-false (some k) n = (λ h m e. ground arith, λ h. ground (arith, h k refl))

is_above-false : (o : Option ℕ) (n : ℕ) → (is_above o n ≡ false) ↔ ((m : ℕ) → o ≡ some m → n ≤ m)
is_above-false none n = (λ h m e. cc, λ h. refl)
is_above-false (some k) n = (λ h m e. ground arith, λ h. ground (arith, h k refl))

fails-false :
    (o : Option (String → Bool)) (s : String)
    → (fails o s ≡ false) ↔ ((p : String → Bool) → o ≡ some p → p s ≡ true)
fails-false none s = (λ h p e. cc, λ h. refl)
fails-false (some q) s = (
  λ h p e. let same : q ≡ p = cc in subst (λ r. r s ≡ true) same (ground arith),
  λ h. ground (arith, h q refl),
)

is_less-false : (o : Option ℤ) (n : ℤ) → (is_less o n ≡ false) ↔ ((m : ℤ) → o ≡ some m → m ≤ℤ n)
is_less-false none n = (λ h m e. cc, λ h. refl)
is_less-false (some k) n = (
  λ h m e. let same : k ≡ m = cc in subst (λ l. l ≤ℤ n) same (ground arith),
  λ h. ground (arith, h k refl),
)

is_more-false : (o : Option ℤ) (n : ℤ) → (is_more o n ≡ false) ↔ ((m : ℤ) → o ≡ some m → n ≤ℤ m)
is_more-false none n = (λ h m e. cc, λ h. refl)
is_more-false (some k) n = (
  λ h m e. let same : k ≡ m = cc in subst (λ l. n ≤ℤ l) same (ground arith),
  λ h. ground (arith, h k refl),
)

abbrev pub IsWithin : Field → ℤ → Type 0
IsWithin f n = ((m : ℤ) → f.min_int ≡ some m → m ≤ℤ n) × ((m : ℤ) → f.max_int ≡ some m → n ≤ℤ m)

int_error-none : (f : Field) (n : ℤ) → (int_error f n ≡ none) ↔ IsWithin f n
unfolding int_error
int_error-none f n = ground (arith, is_less-false f.min_int n, is_more-false f.max_int n)

-- The checks on a text.
unfoldable pub text_error : Field → String → Option Complaint
text_error f s =
    if is_below f.min_len (len s)
    then some too_short
    else if is_above f.max_len (len s)
    then some too_long
    else if fails f.pattern s
    then some has_invalid_format
    else none

-- A text is no integer, so one of the groups of checks is idle.
unfoldable pub value_error : Field → Value → Option Complaint
unfolding text_error int_error to_int64
value_error f (text s) = text_error f s
value_error f v = elim (to_int64 v) [ none ↦ none | some n ↦ int_error f n ]

abbrev checked : Field → Option Value → Option Complaint
checked f none = none
checked f (some null) = none
checked f (some v) = value_error f v

-- One turn of the loop.
unfoldable pub field_error : Field → Option Value → Option Complaint
unfolding value_error is_absent
field_error f v = if f.required && is_absent v then some is_required else checked f v

-- `validate`: the first field with an error, and the error.
unfoldable pub validate : List Field → Row → Option (String × Complaint)
unfolding field_error
validate [] row = none
validate (f ∷ fields) row = elim (field_error f (lookup f.name row)) [
  | some e ↦ some (f.name, e)
  | none ↦ validate fields row
]

abbrev pub IsShort : Field → String → Type 0
IsShort f s =
    ((n : ℕ) → f.min_len ≡ some n → n ≤ len s)
    × ((n : ℕ) → f.max_len ≡ some n → len s ≤ n)
    × ((p : String → Bool) → f.pattern ≡ some p → p s ≡ true)

-- What a field asks of its value.
abbrev pub IsGood : Field → Option Value → Type 0
IsGood f none = f.required ≡ false
IsGood f (some null) = f.required ≡ false
IsGood f (some (text s)) = (f.required ≡ true → s ≢ "") × IsShort f s
IsGood f (some (int n)) = IsWithin f n
IsGood f (some (int64 n)) = IsWithin f n
IsGood f (some (float64 n nought)) = IsWithin f n
IsGood f (some _) = Unit

text_error-none : (f : Field) (s : String) → (text_error f s ≡ none) ↔ IsShort f s
unfolding text_error
text_error-none f s = ground (
  arith,
  is_below-false f.min_len (len s),
  is_above-false f.max_len (len s),
  fails-false f.pattern s,
)

field_error-none : (f : Field) (v : Option Value) → (field_error f v ≡ none) ↔ IsGood f v
unfolding field_error value_error to_int64 is_absent
field_error-none f none = ground arith
field_error-none f (some null) = ground arith
field_error-none f (some (text s)) = ground (arith, text_error-none f s, str_eq_iff s "")
field_error-none f (some (int n)) = ground (arith, int_error-none f n)
field_error-none f (some (int64 n)) = ground (arith, int_error-none f n)
field_error-none f (some (float64 n nought)) = ground (arith, int_error-none f n)
field_error-none f (some (bytes s)) = ground arith
field_error-none f (some (json s)) = ground arith
field_error-none f (some (time s)) = ground arith
field_error-none f (some (bool b)) = ground arith

-- validate accepts a row exactly if each field has what it asks for: a value that is not empty where it
-- is required, a text of its length and pattern, or a number within its bounds.
pub validate_iff :
    (fields : List Field) (row : Row)
    → (validate fields row ≡ none) ↔ All (λ f. IsGood f (lookup f.name row)) fields
unfolding validate
validate_iff [] row = (λ h. tt, λ h. refl)
validate_iff (f ∷ fields) row = elim (Option-cases (field_error f (lookup f.name row))) [
  | inl e ↦
      rw (e, validate)
        (
          λ h. ((field_error-none f (lookup f.name row)).0 e, (validate_iff fields row).0 h),
          λ h. (validate_iff fields row).1 h.1,
        )
  | inr (x, e) ↦
      rw (e, validate)
        (λ h. cc, λ h. let good = (field_error-none f (lookup f.name row)).1 h.0 in cc)
]
