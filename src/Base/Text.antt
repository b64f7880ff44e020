-- ===== src/Base/Text.antt =====
-- The parts of Go's `strings` that the driver uses, on texts as lists of characters.
use Prim.Native.String.{String, [], ◌∷◌}
use mathlib.Core.Path.{◌≡◌, refl}
use mathlib.Core.Bool.{Bool, true, false, ◌&&◌, ◌||◌}
use native.Mathlib.Omega.{arith}
use xenorchestra_csi_driver.Base.Equality.{◌==◌, char_eq}

infixr 66 ◌<>◌
abbrev pub ◌<>◌ : String → String → String
[] <> t = t
(c ∷ s) <> t = c ∷ (s <> t)

-- `strings.HasPrefix(s, prefix)`
abbrev pub has_prefix : String → String → Bool
has_prefix s [] = true
has_prefix [] (p ∷ prefix) = false
has_prefix (c ∷ s) (p ∷ prefix) = c == p && has_prefix s prefix

-- `s[len(prefix):]`, which is read only where `s` has the prefix.
abbrev pub after_prefix : String → String → String
after_prefix s [] = s
after_prefix [] (p ∷ prefix) = []
after_prefix (c ∷ s) (p ∷ prefix) = after_prefix s prefix

-- `strings.Contains(s, part)`
abbrev pub contains_text : String → String → Bool
contains_text [] part = has_prefix [] part
contains_text (c ∷ s) part = has_prefix (c ∷ s) part || contains_text s part

pub has_prefix-<> : (p s : String) → has_prefix (p <> s) p ≡ true
has_prefix-<> [] s = refl
has_prefix-<> (c ∷ p) s = ground (arith, has_prefix-<> p s)

pub after_prefix-<> : (p s : String) → after_prefix (p <> s) p ≡ s
after_prefix-<> [] s = refl
after_prefix-<> (c ∷ p) s = after_prefix-<> p s

pub <>_assoc : (r s t : String) → (r <> s) <> t ≡ r <> (s <> t)
<>_assoc String.[] s t = refl
<>_assoc (String.◌∷◌ c r) s t = λ i. String.◌∷◌ c (<>_assoc r s t i)

pub <>_nil : (s : String) → s <> "" ≡ s
<>_nil String.[] = refl
<>_nil (String.◌∷◌ c s) = λ i. String.◌∷◌ c (<>_nil s i)
