-- ===== src/Plan/Substitution.antt =====
-- What `SubstituteVariables` (internal/core/deployment/variables.go) makes of a text.
use hoster.Prelude.{
  ℕ, ◌-◌, ◌≡◌, refl, ◌∙◌, ap, String, Bool, true, false, Option, none, some, List, [], ◌∷◌, ◌++◌,
  ◌&&◌, not, ◌==◌, length, length-append, all, All, arith, inl, inr, Option-cases,
}
use mathlib.Core.List.{append_assoc}
use hoster.Prelude.Dict.{Dict}
use hoster.Prelude.Text.{Text, codes, text_eq_refl}
use hoster.Plan.Variables.{
  Placeholder, body, is_start, is_word, word, after_word, until_brace, ending, after_colon, named,
  match, print, value_of, replacement, replace_from, substitute_variables,
}

-- The text ends the word, if it does not begin with a byte of one.
abbrev Ends : Text → Type 0
Ends [] = Unit
Ends (x ∷ s) = is_word x ≡ false

word-append : (w s : Text) → all is_word w ≡ true → Ends s → word (w ++ s) ≡ w
unfolding word
word-append [] [] a e = refl
word-append [] (x ∷ s) a e = rw e refl
word-append (c ∷ w) s a e = ground (arith, word-append w s)

after_word-append : (w s : Text) → all is_word w ≡ true → Ends s → after_word (w ++ s) ≡ s
unfolding after_word
after_word-append [] [] a e = refl
after_word-append [] (x ∷ s) a e = rw e refl
after_word-append (c ∷ w) s a e = ground (arith, after_word-append w s)

abbrev no_brace : Text → Bool
no_brace = all (λ c. not (c == b'}'))

until_brace-append : (d s : Text) → no_brace d ≡ true → until_brace (d ++ (b'}' ∷ s)) ≡ some d
unfolding until_brace
until_brace-append [] s h = refl
until_brace-append (c ∷ d) s h = ground (arith, until_brace-append d s)

-- What a name is.
abbrev pub is_name : Text → Bool
is_name [] = false
is_name (c ∷ w) = is_start c && all is_word w

abbrev no_brace_in : Option Text → Bool
no_brace_in none = true
no_brace_in (some d) = no_brace d

-- A placeholder that the expression can match: a name, and a default without a closing brace.
abbrev pub IsValid : Placeholder → Type 0
IsValid p = (is_name p.name ≡ true) × (no_brace_in p.default ≡ true)

named_plain :
    (name s : Text)
    → is_name name ≡ true
    → named (name ++ (b'}' ∷ s)) ≡ some (record { name = name; default = none })
unfolding named is_word ending
named_plain [] s n = cc
named_plain (c ∷ w) s n =
    let a : all is_word w ≡ true = ground arith in
    let e : is_start c ≡ true = ground arith in
    rw (word-append w (b'}' ∷ s) a refl) (rw (after_word-append w (b'}' ∷ s) a refl) (rw e refl))

named_default :
    (name d s : Text)
    → is_name name ≡ true
    → no_brace d ≡ true
    → named (name ++ (b':' ∷ b'-' ∷ (d ++ (b'}' ∷ s))))
      ≡ some (record { name = name; default = some d })
unfolding named is_word ending after_colon
named_default [] d s n h = cc
named_default (c ∷ w) d s n h =
    let a : all is_word w ≡ true = ground arith in
    let e : is_start c ≡ true = ground arith in
    let t : Text = b':' ∷ b'-' ∷ (d ++ (b'}' ∷ s)) in
    rw (word-append w t a refl)
      (rw (after_word-append w t a refl) (rw e (rw (until_brace-append d s h) refl)))

match_parts :
    (name : Text) (default : Option Text) (rest : Text)
    → is_name name ≡ true
    → no_brace_in default ≡ true
    → match (print (record { name = name; default = default }) ++ rest)
      ≡ some (record { name = name; default = default })
unfolding match
match_parts name none rest n h = rw (append_assoc name (codes "}") rest) (named_plain name rest n)
match_parts name (some d) rest n h =
    rw (append_assoc name (codes ":-" ++ d ++ codes "}") rest)
      (rw (append_assoc d (codes "}") rest) (named_default name d rest n h))

pub match-print : (p : Placeholder) (rest : Text) → IsValid p → match (print p ++ rest) ≡ some p
match-print p rest (n, h) = match_parts p.name p.default rest n h

-- What stands for a placeholder: the value of the variable, or else the default, or else the
-- placeholder itself.
abbrev pub default_or : Option Text → Text → Text
default_or none t = t
default_or (some d) t = d

abbrev pub value : Dict String → Placeholder → Text
value variables p = elim (value_of p.name variables) [
  | some v ↦ v
  | none ↦ default_or p.default (print p)
]

replacement_parts :
    (variables : Dict String) (name : Text) (default : Option Text)
    → replacement variables (record { name = name; default = default })
      ≡ value variables (record { name = name; default = default })
unfolding replacement
replacement_parts variables name none = elim (Option-cases (value_of name variables)) [
  | inr (v, e) ↦ rw (e, replacement, value) refl
  | inl e ↦ rw (e, replacement, value) (ground (arith, length-append {0} name (codes "}")))
]
replacement_parts variables name (some []) = elim (Option-cases (value_of name variables)) [
  | inr (v, e) ↦ rw (e, replacement, value) refl
  | inl e ↦
      rw (e, replacement, value)
        (rw (text_eq_refl (name ++ codes ":-}"))
          (ground (arith, length-append {0} name (codes ":-}"))))
]
replacement_parts variables name (some (c ∷ d)) = elim (Option-cases (value_of name variables)) [
  | inr (v, e) ↦ rw (e, replacement, value) refl
  | inl e ↦ rw (e, replacement, value) refl
]

pub replacement-value :
    (variables : Dict String) (p : Placeholder) → replacement variables p ≡ value variables p
replacement-value variables p = replacement_parts variables p.name p.default

skip-append :
    (variables : Dict String) (q rest : Text)
    → replace_from variables (length q) (q ++ rest) ≡ replace_from variables 0 rest
unfolding replace_from
skip-append variables [] rest = refl
skip-append variables (c ∷ q) rest = skip-append variables q rest

skip_rest :
    (variables : Dict String) (c : ℕ) (q rest : Text)
    → replace_from variables (length (c ∷ q) - 1) (q ++ rest) ≡ replace_from variables 0 rest
skip_rest variables c q rest =
    let e : length (c ∷ q) - 1 ≡ length q = omega arith in rw e (skip-append variables q rest)

-- A text in parts: literal text, and placeholders.
pub data Piece : Type 0 where
  literal : Text → Piece
  hole : Placeholder → Piece

abbrev pub IsPiece : Piece → Type 0
IsPiece (literal s) = all (λ c. not (c == b'$')) s ≡ true
IsPiece (hole p) = IsValid p

abbrev pub text_of : List Piece → Text
text_of [] = []
text_of (literal s ∷ ps) = s ++ text_of ps
text_of (hole p ∷ ps) = print p ++ text_of ps

abbrev pub filled : Dict String → List Piece → Text
filled variables [] = []
filled variables (literal s ∷ ps) = s ++ filled variables ps
filled variables (hole p ∷ ps) = value variables p ++ filled variables ps

literal-append :
    (variables : Dict String) (s rest : Text)
    → all (λ c. not (c == b'$')) s ≡ true
    → replace_from variables 0 (s ++ rest) ≡ s ++ replace_from variables 0 rest
unfolding replace_from match
literal-append variables [] rest h = refl
literal-append variables (c ∷ s) rest h = ground (arith, literal-append variables s rest)

hole-append :
    (variables : Dict String) (p : Placeholder) (rest : Text)
    → IsValid p
    → replace_from variables 0 (print p ++ rest)
      ≡ value variables p ++ replace_from variables 0 rest
unfolding replace_from
hole-append variables p rest v =
    rw (match-print p rest v, replace_from)
      (rw (replacement-value variables p)
        (ap (λ t. value variables p ++ t) (skip_rest variables b'$' (body p) rest)))

-- comment
pub substitute_variables_fills :
    (variables : Dict String) (pieces : List Piece)
    → All IsPiece pieces
    → substitute_variables (text_of pieces) variables ≡ filled variables pieces
unfolding substitute_variables
substitute_variables_fills variables [] h = refl
substitute_variables_fills variables (literal s ∷ ps) (h, hs) =
    literal-append variables s (text_of ps) h
    ∙ ap (λ t. s ++ t) (substitute_variables_fills variables ps hs)
substitute_variables_fills variables (hole p ∷ ps) (h, hs) =
    hole-append variables p (text_of ps) h
    ∙ ap (λ t. value variables p ++ t) (substitute_variables_fills variables ps hs)
