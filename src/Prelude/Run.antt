-- ===== src/Prelude/Run.antt =====
-- A handler that returns, waits where it stands, or panics.
use mathlib.Core.Path.{◌≡◌, refl}
use mathlib.Core.Option.{Option, none, some}
use native.Mathlib.Omega.{arith}

pub data Run {ℓ} (A : Type ℓ) : Type ℓ where
  done : A → Run A
  waits : Run A
  panics : Run A

infixl 5 ◌>>=◌
abbrev pub ◌>>=◌ {ℓ κ} : {A : Type ℓ} {B : Type κ} → Run A → (A → Run B) → Run B
done a >>= f = f a
waits >>= f = waits
panics >>= f = panics

-- A call that waits for ever on `none`.
abbrev pub await {ℓ} : {A : Type ℓ} → Option A → Run A
await none = waits
await (some a) = done a

abbrev pub got {ℓ} : {A : Type ℓ} → A → Run A → A
got d (done a) = a
got d waits = d
got d panics = d

pub done-injective {ℓ} : {A : Type ℓ} (a b : A) → done a ≡ done b → a ≡ b
done-injective a b h i = got a (h i)

pub >>=-eq-done {ℓ κ} :
    {A : Type ℓ} {B : Type κ} (m : Run A) (f : A → Run B) {b : B}
    → (m >>= f) ≡ done b
    → (a : A) × (m ≡ done a) × (f a ≡ done b)
>>=-eq-done (done a) f h = (a, refl, h)
>>=-eq-done waits f h = absurd (ground arith)
>>=-eq-done panics f h = absurd (ground arith)
