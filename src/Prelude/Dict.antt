-- ===== src/Prelude/Dict.antt =====
-- Go's `map[string]V`: an association list, where a key that is missing reads as `none`, or a
-- function, where it reads as the zero value.
use Prim.Native.String.{String}
use mathlib.Core.Path.{◌≡◌, refl}
use mathlib.Core.List.{List, [], ◌∷◌}
use mathlib.Core.Option.{Option, none, some}
use native.Mathlib.Omega.{arith}
use text.Mathlib.Text.{◌==◌}
use text.Mathlib.TextEquality.{eq_iff}
use hoster.Prelude.Tests.{if◌then◌else◌}

abbrev pub Dict {ℓ} : Type ℓ → Type ℓ
Dict V = List (String × V)

module _ {ℓ} {V : Type ℓ} where
  abbrev pub lookup : String → List (String × V) → Option V
  lookup k [] = none
  lookup k ((j, v) ∷ m) = if j == k then some v else lookup k m

-- `m[k] = v` in an association list: a key that is there keeps its place.
unfoldable pub assign {ℓ} : {V : Type ℓ} → Dict V → String → V → Dict V
assign [] k v = (k, v) ∷ []
assign ((j, w) ∷ m) k v = if j == k then (j, v) ∷ m else (j, w) ∷ assign m k v

-- `m[k] = v` in a map that is a function.
unfoldable pub update {ℓ} : {V : Type ℓ} → (String → V) → String → V → String → V
update m k v j = if k == j then v else m j

pub update_lem {ℓ} :
    {V : Type ℓ} (m : String → V) (k : String) (v : V) (j : String)
    → update m k v j ≡ (if k == j then v else m j)
unfolding update
update_lem m k v j = refl

-- `delete(m, k)`.
unfoldable pub delete {ℓ} : {V : Type ℓ} → String → Dict V → Dict V
delete k [] = []
delete k ((j, v) ∷ m) = let rest = delete k m in if j == k then rest else (j, v) ∷ rest

module _ {ℓ} {V : Type ℓ} (j : String) where
  pub lookup-assign :
      (m : Dict V) (k : String) (v : V)
      → lookup j (assign m k v) ≡ (if k == j then some v else lookup j m)
  unfolding assign
  lookup-assign [] k v = refl
  lookup-assign ((i, w) ∷ m) k v =
      ground (arith, lookup-assign m k v, eq_iff i k, eq_iff k j, eq_iff i j)

  pub lookup-delete :
      (k : String) (m : Dict V) → lookup j (delete k m) ≡ (if k == j then none else lookup j m)
  unfolding delete
  lookup-delete k [] = ground arith
  lookup-delete k ((i, w) ∷ m) =
      ground (arith, lookup-delete k m, eq_iff i k, eq_iff k j, eq_iff i j)
