-- ===== src/Plan/Names.antt =====
-- The names of internal/core/deployment/naming.go tell the resources of deployments apart.
use hoster.Prelude.{◌≡◌, String, [], ◌∷◌, ◌++◌, length, arith}
use hoster.Prelude.Text.{Text, codes}
use hoster.Plan.{container_name, volume_name}

split_equal : (s t u v : Text) → length s ≡ length t → s ++ u ≡ t ++ v → (s ≡ t) × (u ≡ v)
split_equal [] [] u v h e = (cc, e)
split_equal [] (b ∷ t) u v h e = absurd (omega arith)
split_equal (a ∷ s) [] u v h e = absurd (omega arith)
split_equal (a ∷ s) (b ∷ t) u v h e = let (x, y) = split_equal s t u v (omega arith) (cc) in (cc, y)

-- Ids of equal length.
pub container_name-eq :
    (d e s t : String)
    → length (codes d) ≡ length (codes e)
    → container_name d s ≡ container_name e t
    → (codes d ≡ codes e) × (codes s ≡ codes t)
unfolding container_name
container_name-eq d e s t h q =
    let (x, y) =
      split_equal (codes d) (codes e) (codes "_" ++ codes s) (codes "_" ++ codes t) h (cc) in
    (x, cc)

pub volume_name-eq :
    (d e : String) (s t : Text)
    → length (codes d) ≡ length (codes e)
    → volume_name d s ≡ volume_name e t
    → (codes d ≡ codes e) × (s ≡ t)
unfolding volume_name
volume_name-eq d e s t h q =
    let (x, y) = split_equal (codes d) (codes e) (codes "_" ++ s) (codes "_" ++ t) h (cc) in (x, cc)
