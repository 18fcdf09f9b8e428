-- ===== src/Prelude/Values.antt =====
-- What every entry of a map satisfies.
use mathlib.Core.Path.{◌≡◌, refl, subst}
use mathlib.Core.Bool.{Bool, true, false}
use mathlib.Core.Logic.{inl, inr}
use mathlib.Core.Option.{some, some-injective}
use mathlib.Core.List.{[], ◌∷◌}
use native.Mathlib.Omega.{arith}
use go_api_practice.Prelude.Tests.{if◌then◌else◌, Bool-cases}
use go_api_practice.Prelude.Key.{Key, same, same_iff}
use go_api_practice.Prelude.Assoc.{Assoc, lookup, insert, delete}

module _ {ℓ κ π} {K : Type ℓ} {V : Type κ} (P : K → V → Type π) where
  abbrev pub All : Assoc K V → Type π
  All [] = Unit
  All ((k, v) ∷ m) = P k v × All m

module _ {ℓ κ π} {K : Type ℓ} {V : Type κ} ⦃key : Key K⦄ (P : K → V → Type π) where
  pub All-insert : (k : K) (v : V) (m : Assoc K V) → P k v → All P m → All P (insert k v m)
  unfolding insert
  All-insert k v [] p h = (p, tt)
  All-insert k v ((j, w) ∷ m) p h = elim (Bool-cases (same j k)) [
    | inl t ↦ rw t (p, h.1)
    | inr t ↦ rw t (h.0, All-insert k v m p h.1)
  ]

  pub All-delete : (k : K) (m : Assoc K V) → All P m → All P (delete k m)
  unfolding delete
  All-delete k [] h = tt
  All-delete k ((j, w) ∷ m) h = elim (Bool-cases (same j k)) [
    | inl t ↦ rw t (All-delete k m h.1)
    | inr t ↦ rw t (h.0, All-delete k m h.1)
  ]

  pub All-lookup : (k : K) (v : V) (m : Assoc K V) → All P m → lookup k m ≡ some v → P k v
  unfolding lookup
  All-lookup k v [] h e = absurd (ground arith)
  All-lookup k v ((j, w) ∷ m) h e = entry (same j k) refl e (All-lookup k v m h.1)
    where
      entry :
          (b : Bool)
          → same j k ≡ b
          → (if b then some w else lookup k m) ≡ some v
          → (lookup k m ≡ some v → P k v)
          → P k v
      entry true t g rest =
          subst (P k) (some-injective _ _ g) (subst (λ i. P i w) ((same_iff j k).0 t) h.0)
      entry false t g rest = rest g
