-- ===== src/Prelude/Split.antt =====
-- strings.Split at a character, and the text that is split.
use Prim.Native.Char.{Char, code}
use Prim.Native.String.{String, [], ◌∷◌}
use mathlib.Core.Path.{◌≡◌, refl, ap, ◌∙◌}
use mathlib.Core.Bool.{Bool, true, false}
use mathlib.Core.List.{List, [], ◌∷◌}
use native.Mathlib.Omega.{arith}
use go_api_practice.Prelude.Tests.{if◌then◌else◌, ◌==◌, ==_iff}

-- A character put before the first part.
abbrev pub longer : Char → List String → List String
longer ch [] = (ch ∷ []) ∷ []
longer ch (part ∷ parts) = (ch ∷ part) ∷ parts

abbrev pub concat : String → String → String
concat [] t = t
concat (ch ∷ s) t = ch ∷ concat s t

module _ (sep : Char) where
  abbrev pub is_sep : Char → Bool
  is_sep ch = code ch == code sep

  unfoldable pub split : String → List String
  split [] = [] ∷ []
  split (ch ∷ s) = let parts = split s in if is_sep ch then [] ∷ parts else longer ch parts

  -- A text without the separator.
  abbrev pub Solid : String → Type 0
  Solid [] = Unit {0}
  Solid (ch ∷ s) = (is_sep ch ≡ false) × Solid s

  abbrev pub AllSolid : List String → Type 0
  AllSolid [] = Unit {0}
  AllSolid (part ∷ parts) = Solid part × AllSolid parts

  -- The parts, each after a separator.
  unfoldable pub print : List String → String
  print [] = []
  print (part ∷ parts) = sep ∷ concat part (print parts)

  split-sep : (part s : String) → Solid part → split (concat part (sep ∷ s)) ≡ part ∷ split s
  unfolding split
  split-sep [] s h =
      let here : is_sep sep ≡ true = ground (arith, ==_iff (code sep) (code sep)) in rw here refl
  split-sep (ch ∷ part) s h = rw (h.0, split-sep part s h.1) refl

  split_last : (part : String) → Solid part → split (concat part "") ≡ part ∷ []
  unfolding split
  split_last [] h = refl
  split_last (ch ∷ part) h = rw (h.0, split_last part h.1) refl

  -- Parts without the separator are found again in the text that joins them.
  pub split-print :
      (part : String) (parts : List String)
      → AllSolid (part ∷ parts)
      → split (concat part (print parts)) ≡ part ∷ parts
  unfolding print
  split-print part [] h = split_last part h.0
  split-print part (next ∷ parts) h =
      split-sep part (concat next (print parts)) h.0
      ∙ ap (λ ps. part ∷ ps) (split-print next parts h.1)
