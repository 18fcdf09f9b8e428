-- ===== src/Prelude/Members.antt =====
-- A Go map from names to the objects they name, as the list of the names.
use Prim.Native.Nat.{◌+◌, ◌≤◌}
use mathlib.Core.Path.{◌≡◌, refl}
use mathlib.Core.Bool.{Bool, true, false}
use mathlib.Core.List.{List, [], ◌∷◌}
use native.Mathlib.Omega.{arith}
use go_api_practice.Prelude.Tests.{if◌then◌else◌}
use go_api_practice.Prelude.Lists.{length}
use go_api_practice.Prelude.Key.{Key, same, same_iff}

module _ {ℓ} {K : Type ℓ} ⦃key : Key K⦄ where
  unfoldable pub contains : K → List K → Bool
  contains k [] = false
  contains k (j ∷ ks) = if same j k then true else contains k ks

  unfoldable pub add : K → List K → List K
  add k [] = k ∷ []
  add k (j ∷ ks) = if same j k then j ∷ ks else j ∷ add k ks

  unfoldable pub remove : K → List K → List K
  remove k [] = []
  remove k (j ∷ ks) = let rest = remove k ks in if same j k then rest else j ∷ rest

  pub contains-add :
      (k j : K) (ks : List K) → contains j (add k ks) ≡ (if same k j then true else contains j ks)
  unfolding contains add
  contains-add k j [] = refl
  contains-add k j (i ∷ ks) =
      ground (arith, same_iff k j, same_iff i k, same_iff i j, contains-add k j ks)

  pub contains-remove :
      (k j : K) (ks : List K)
      → contains j (remove k ks) ≡ (if same k j then false else contains j ks)
  unfolding contains remove
  contains-remove k j [] = ground arith
  contains-remove k j (i ∷ ks) =
      ground (arith, same_iff k j, same_iff i k, same_iff i j, contains-remove k j ks)

  pub length-add : (k : K) (ks : List K) → length (add k ks) ≤ length ks + 1
  unfolding add
  length-add k [] = omega arith
  length-add k (i ∷ ks) = ground (arith, length-add k ks)

  pub length-remove : (k : K) (ks : List K) → length (remove k ks) ≤ length ks
  unfolding remove
  length-remove k [] = omega arith
  length-remove k (i ∷ ks) = ground (arith, length-remove k ks)
