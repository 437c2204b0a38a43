-- ===== src/Template/Slug.antt =====
-- The slugs of names: `GenerateSlug` of internal/core/domain/template.go and `Slugify` of
-- internal/core/domain/slug.go.
use hoster.Prelude.{
  ℕ, zero, suc, ◌+◌, ◌≤◌, ◌<◌, ◌≡◌, refl, Bool, true, false, [], ◌∷◌, ◌&&◌, ◌||◌, ◌==◌,
  if◌then◌else◌, arith, length, map, Bool-cases, inl, inr, All,
}
use hoster.Prelude.Text.{Text, is_empty, is_digit, is_lower, is_upper}

abbrev hyphen : ℕ
hyphen = 45

-- strings.ReplaceAll(slug, " ", "-").
abbrev pub replace_spaces : Text → Text
replace_spaces = map (λ c. if c == 32 then hyphen else c)

-- strings.Contains(slug, "--").
unfoldable pub contains_double : Text → Bool
contains_double [] = false
contains_double (a ∷ []) = false
contains_double (a ∷ b ∷ s) = (a == hyphen && b == hyphen) || contains_double (b ∷ s)

-- strings.ReplaceAll(slug, "--", "-"): the matches do not overlap.
unfoldable pub collapse_once : Text → Text
collapse_once [] = []
collapse_once (a ∷ []) = a ∷ []
collapse_once (a ∷ b ∷ s) =
    let both = hyphen ∷ collapse_once s in
    let one = a ∷ collapse_once (b ∷ s) in if a == hyphen && b == hyphen then both else one

-- The `for` loop of `GenerateSlug`.
unfoldable pub collapse : ℕ → Text → Text
collapse zero s = s
collapse (suc fuel) s =
    let rest = collapse fuel (collapse_once s) in if contains_double s then rest else s

-- The two halves of strings.Trim(slug, "-").
unfoldable pub trim_left : Text → Text
trim_left [] = []
trim_left (c ∷ s) = if c == hyphen then trim_left s else c ∷ s

abbrev cons_unless_hyphen : ℕ → Text → Text
cons_unless_hyphen c r = if c == hyphen && is_empty r then [] else c ∷ r

unfoldable pub trim_right : Text → Text
trim_right [] = []
trim_right (c ∷ s) = cons_unless_hyphen c (trim_right s)

module _ (to_lower : Text → Text) where
  -- `GenerateSlug`. strings.ToLower, which knows the letters of Unicode, is a parameter. Each round of
  -- the loop makes the text shorter, so its length is fuel enough.
  unfoldable pub generate_slug : Text → Text
  unfolding collapse trim_left trim_right
  generate_slug name =
      let s = replace_spaces (to_lower name) in trim_right (trim_left (collapse (length s) s))

-- `Slugify`. The loop runs over runes; a rune beyond ASCII is dropped, and so are all its bytes here.
unfoldable pub slugify : Text → Text
slugify [] = []
slugify (r ∷ name) =
    let slug = slugify name in
    if (is_lower r || is_digit r) || r == hyphen
    then r ∷ slug
    else if is_upper r
    then (r + 32) ∷ slug
    else if r == 32
    then hyphen ∷ slug
    else slug

length-collapse_once-le : (s : Text) → length (collapse_once s) ≤ length s
unfolding collapse_once
length-collapse_once-le [] = omega arith
length-collapse_once-le (a ∷ []) = omega arith
length-collapse_once-le (a ∷ b ∷ s) =
    ground (arith, length-collapse_once-le s, length-collapse_once-le (b ∷ s))

length-collapse_once-lt :
    (s : Text) → contains_double s ≡ true → length (collapse_once s) < length s
unfolding collapse_once contains_double
length-collapse_once-lt [] h = cc
length-collapse_once-lt (a ∷ []) h = cc
length-collapse_once-lt (a ∷ b ∷ s) h =
    ground (arith, length-collapse_once-le s, length-collapse_once-lt (b ∷ s))

collapse_settles :
    (fuel : ℕ) (s : Text) → length s ≤ fuel → contains_double (collapse fuel s) ≡ false
unfolding collapse
collapse_settles zero [] h = unfold contains_double in refl
collapse_settles zero (c ∷ s) h = absurd (omega arith)
collapse_settles (suc fuel) s h = elim (Bool-cases (contains_double s)) [
  | inl e ↦
      rw e (collapse_settles fuel (collapse_once s) (omega (arith, length-collapse_once-lt s e)))
  | inr e ↦ rw e e
]

trim_left-settled : (s : Text) → contains_double s ≡ false → contains_double (trim_left s) ≡ false
unfolding trim_left contains_double
trim_left-settled [] h = refl
trim_left-settled (c ∷ []) h = ground arith
trim_left-settled (c ∷ d ∷ s) h = ground (arith, trim_left-settled (d ∷ s))

cons_settled :
    (c d : ℕ) (r : Text)
    → (c == hyphen && d == hyphen) ≡ false
    → contains_double (cons_unless_hyphen d r) ≡ false
    → contains_double (cons_unless_hyphen c (cons_unless_hyphen d r)) ≡ false
unfolding contains_double
cons_settled c d [] p h = ground arith
cons_settled c d (e ∷ r) p h = ground arith

trim_right-settled : (s : Text) → contains_double s ≡ false → contains_double (trim_right s) ≡ false
unfolding trim_right contains_double
trim_right-settled [] h = refl
trim_right-settled (c ∷ []) h = ground arith
trim_right-settled (c ∷ d ∷ s) h =
    cons_settled c d (trim_right s) (ground arith) (trim_right-settled (d ∷ s) (ground arith))

-- The text does not begin with a hyphen.
abbrev pub StartsPlain : Text → Type 0
StartsPlain [] = Unit
StartsPlain (c ∷ s) = (c == hyphen) ≡ false

-- The text does not end with a hyphen.
abbrev pub EndsPlain : Text → Type 0
EndsPlain [] = Unit
EndsPlain (c ∷ []) = (c == hyphen) ≡ false
EndsPlain (c ∷ d ∷ s) = EndsPlain (d ∷ s)

trim_left-StartsPlain : (s : Text) → StartsPlain (trim_left s)
unfolding trim_left
trim_left-StartsPlain [] = tt
trim_left-StartsPlain (c ∷ s) = elim (Bool-cases (c == hyphen)) [
  | inl e ↦ rw e (trim_left-StartsPlain s)
  | inr e ↦ rw e e
]

cons-EndsPlain : (c : ℕ) (r : Text) → EndsPlain r → EndsPlain (cons_unless_hyphen c r)
cons-EndsPlain c [] h = elim (Bool-cases (c == hyphen)) [ inl e ↦ rw e tt | inr e ↦ rw e e ]
cons-EndsPlain c (d ∷ r) h = elim (Bool-cases (c == hyphen)) [ inl e ↦ rw e h | inr e ↦ rw e h ]

trim_right-EndsPlain : (s : Text) → EndsPlain (trim_right s)
unfolding trim_right
trim_right-EndsPlain [] = tt
trim_right-EndsPlain (c ∷ s) = cons-EndsPlain c (trim_right s) (trim_right-EndsPlain s)

cons-StartsPlain : (c : ℕ) (r : Text) → (c == hyphen) ≡ false → StartsPlain (cons_unless_hyphen c r)
cons-StartsPlain c r e = rw e e

trim_right-StartsPlain : (s : Text) → StartsPlain s → StartsPlain (trim_right s)
unfolding trim_right
trim_right-StartsPlain [] h = tt
trim_right-StartsPlain (c ∷ s) h = cons-StartsPlain c (trim_right s) h

collapse_idle : (fuel : ℕ) (s : Text) → contains_double s ≡ false → collapse fuel s ≡ s
unfolding collapse
collapse_idle zero s e = refl
collapse_idle (suc fuel) s e = rw e refl

collapse_more :
    (fuel more : ℕ) (s : Text) → length s ≤ fuel → collapse (fuel + more) s ≡ collapse fuel s
unfolding collapse
collapse_more zero more [] h =
    let sum : 0 + more ≡ more = omega arith in
    rw sum (collapse_idle more [] (unfold contains_double in refl))
collapse_more zero more (c ∷ s) h = absurd (omega arith)
collapse_more (suc fuel) more s h =
    let sum : suc fuel + more ≡ suc (fuel + more) = omega arith in
    rw sum (elim (Bool-cases (contains_double s)) [
      | inl e ↦
          rw e
            (collapse_more fuel more (collapse_once s) (omega (arith, length-collapse_once-lt s e)))
      | inr e ↦ rw e refl
    ])

-- Whatever the name and whatever strings.ToLower does, the loop of GenerateSlug has come to a text
-- without two hyphens in a row after as many rounds as the text has bytes, and more rounds change
-- nothing; the slug has no two hyphens in a row, and neither begins nor ends with one.
pub generate_slug_tidy :
    (to_lower : Text → Text) (name : Text)
    → let slug = generate_slug to_lower name in
      let s = replace_spaces (to_lower name) in
      (contains_double (collapse (length s) s) ≡ false)
      × ((more : ℕ) → collapse (length s + more) s ≡ collapse (length s) s)
      × (contains_double slug ≡ false)
      × StartsPlain slug
      × EndsPlain slug
unfolding generate_slug
generate_slug_tidy to_lower name =
    let s = replace_spaces (to_lower name) in
    let t = collapse (length s) s in
    let settled = collapse_settles (length s) s (omega arith) in
    (
      settled,
      λ more. collapse_more (length s) more s (omega arith),
      trim_right-settled (trim_left t) (trim_left-settled t settled),
      trim_right-StartsPlain (trim_left t) (trim_left-StartsPlain t),
      trim_right-EndsPlain (trim_left t),
    )

-- A character of a host name's label, in lower case.
abbrev pub is_label_char : ℕ → Bool
is_label_char c = is_lower c || is_digit c || c == hyphen

-- Every character of a slug of `Slugify` is a small letter, a digit or a hyphen.
slugify-All : (name : Text) → All (λ c. is_label_char c ≡ true) (slugify name)
unfolding slugify
slugify-All [] = tt
slugify-All (r ∷ name) = ground (arith, slugify-All name)

-- `Slugify` changes nothing in a text of such characters alone.
slugify_fixed : (s : Text) → All (λ c. is_label_char c ≡ true) s → slugify s ≡ s
unfolding slugify
slugify_fixed [] h = refl
slugify_fixed (c ∷ s) h = ground (arith, slugify_fixed s)

-- A slug of `Slugify` holds only small letters, digits and hyphens, and to make a slug of it again
-- changes nothing; a text of such characters alone is its own slug.
pub slugify_safe :
    (name : Text)
    → All (λ c. is_label_char c ≡ true) (slugify name)
      × (slugify (slugify name) ≡ slugify name)
      × (All (λ c. is_label_char c ≡ true) name → slugify name ≡ name)
slugify_safe name =
    (slugify-All name, slugify_fixed (slugify name) (slugify-All name), slugify_fixed name)
