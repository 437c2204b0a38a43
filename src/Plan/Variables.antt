-- ===== src/Plan/Variables.antt =====
-- internal/core/deployment/variables.go: the substitution of `${NAME}` and `${NAME:-default}`.
--
-- Texts are bytes. The regular expression of the source is a scanner here: no byte of a name can
-- stand after it, and the default ends at the first brace, so a match begins at a byte in one way. A
-- key of the map is compared by its bytes.
use hoster.Prelude.{
  ℕ, zero, suc, ◌+◌, ◌-◌, String, Bool, Option, none, some, [], ◌∷◌, ◌++◌, ◌&&◌, ◌||◌, not,
  if◌then◌else◌, ◌==◌, ltb, length,
}
use hoster.Prelude.Dict.{Dict}
use hoster.Prelude.Text.{Text, codes, text_eq, strip_prefix, is_empty, is_digit, is_lower, is_upper}

-- What the groups of `varPlaceholderRegex` match.
pub record Placeholder : Type 0 where
  pub name : Text
  pub default : Option Text

-- `[A-Za-z_]` and `[A-Za-z0-9_]`.
unfoldable pub is_start : ℕ → Bool
is_start c = is_upper c || is_lower c || c == b'_'

unfoldable pub is_word : ℕ → Bool
is_word c = is_upper c || is_lower c || is_digit c || c == b'_'

-- `[A-Za-z0-9_]*`, as long as it goes.
unfoldable pub word : Text → Text
unfolding is_word
word [] = []
word (c ∷ s) = let rest = word s in if is_word c then c ∷ rest else []

-- The text after it.
unfoldable pub after_word : Text → Text
unfolding is_word
after_word [] = []
after_word (c ∷ s) = let rest = after_word s in if is_word c then rest else c ∷ s

-- `[^}]*\}`: the text before the first brace.
unfoldable pub until_brace : Text → Option Text
until_brace [] = none
until_brace (c ∷ s) =
    let rest = until_brace s in
    if c == b'}' then some [] else elim rest [ none ↦ none | some d ↦ some (c ∷ d) ]

-- `(?::-([^}]*))?\}`: the end of a match, after the name.
abbrev defaulted : Text → Option Text → Option Placeholder
defaulted name none = none
defaulted name (some d) = some (record { name = name; default = some d })

unfoldable pub after_colon : Text → Text → Option Placeholder
unfolding until_brace
after_colon name [] = none
after_colon name (c ∷ s) = if c == b'-' then defaulted name (until_brace s) else none

unfoldable pub ending : Text → Text → Option Placeholder
unfolding after_colon
ending name [] = none
ending name (c ∷ s) =
    if c == b'}'
    then some (record { name = name; default = none })
    else if c == b':'
    then after_colon name s
    else none

unfoldable pub named : Text → Option Placeholder
unfolding is_start word after_word ending
named [] = none
named (c ∷ s) = if is_start c then ending (c ∷ word s) (after_word s) else none

abbrev opened : Option Text → Option Placeholder
opened none = none
opened (some s) = named s

-- A match that begins here.
unfoldable pub match : Text → Option Placeholder
unfolding named
match s = opened (strip_prefix (codes "${") s)

abbrev default_text : Option Text → Text
default_text none = []
default_text (some d) = codes ":-" ++ d

-- The text of a match, without its first byte.
abbrev pub body : Placeholder → Text
body p = codes "{" ++ (p.name ++ (default_text p.default ++ codes "}"))

-- The text of a match.
abbrev pub print : Placeholder → Text
print p = b'$' ∷ body p

-- The map of the variables, read by a name.
abbrev pub value_of : Text → Dict String → Option Text
value_of name [] = none
value_of name ((k, v) ∷ m) = if text_eq (codes k) name then some (codes v) else value_of name m

abbrev group : Option Text → Text
group none = []
group (some d) = d

-- The function that `SubstituteVariables` hands to ReplaceAllStringFunc. Where the group of the
-- default is empty, the second expression can match nothing but the whole placeholder.
unfoldable pub replacement : Dict String → Placeholder → Text
replacement variables p = elim (value_of p.name variables) [
  | some value ↦ value
  | none ↦
      let empty_default = codes "${" ++ (p.name ++ codes ":-}") in
      let long = ltb (length p.name + 4) (length (print p)) in
      if not (is_empty (group p.default))
      then group p.default
      else if long && text_eq (print p) empty_default
      then []
      else print p
]

-- ReplaceAllStringFunc from a place on, `skip` bytes of which belong to the match before.
unfoldable pub replace_from : Dict String → ℕ → Text → Text
unfolding match replacement
replace_from variables skip [] = []
replace_from variables (suc skip) (c ∷ s) = replace_from variables skip s
replace_from variables zero (c ∷ s) = elim (match (c ∷ s)) [
  | none ↦ c ∷ replace_from variables 0 s
  | some p ↦ replacement variables p ++ replace_from variables (length (print p) - 1) s
]

-- `SubstituteVariables`.
unfoldable pub substitute_variables : Text → Dict String → Text
unfolding replace_from
substitute_variables value variables = replace_from variables 0 value
