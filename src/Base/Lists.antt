-- ===== src/Base/Lists.antt =====
-- Lists measured by native numbers, predicates on lists, and Go's maps of texts.
use Prim.Native.Nat.{ℕ, suc}
use Prim.Native.String.{String}
use mathlib.Core.Path.{◌≡◌, refl}
use mathlib.Core.Bool.{Bool, true, false, ◌||◌}
use mathlib.Core.Option.{Option, none, some}
use mathlib.Core.List.{List, [], ◌∷◌, ◌++◌}
use native.Mathlib.Omega.{arith}
use xenorchestra_csi_driver.Base.Equality.{Eq, ◌==◌, string_eq, if◌then◌else◌}

module _ {ℓ} {A : Type ℓ} where
  abbrev pub length : List A → ℕ
  length [] = 0
  length (x ∷ xs) = suc (length xs)

  -- The items that pass a test, in order.
  abbrev pub keep : (A → Bool) → List A → List A
  keep p [] = []
  keep p (x ∷ xs) = let rest = keep p xs in if p x then x ∷ rest else rest

  abbrev pub any : (A → Bool) → List A → Bool
  any p [] = false
  any p (x ∷ xs) = p x || any p xs

  abbrev pub All {κ} : (A → Type κ) → List A → Type κ
  All P [] = Unit
  All P (x ∷ xs) = P x × All P xs

-- `slices.Contains`
abbrev pub contains {ℓ} : {A : Type ℓ} ⦃e : Eq A⦄ → List A → A → Bool
contains xs a = any (λ x. x == a) xs

-- A `map[string]string`.
abbrev pub StringMap : Type 0
StringMap = List (String × String)

-- `v, ok := m[k]`
abbrev pub lookup : String → StringMap → Option String
lookup k [] = none
lookup k ((j, v) ∷ m) = if k == j then some v else lookup k m

-- `m[k]`, which is empty on a missing key.
abbrev pub value_at : String → StringMap → String
value_at k [] = ""
value_at k ((j, v) ∷ m) = if k == j then v else value_at k m

pub any-append {ℓ} :
    {A : Type ℓ} (p : A → Bool) (xs ys : List A) → any p (xs ++ ys) ≡ (any p xs || any p ys)
any-append p [] ys = refl
any-append p (x ∷ xs) ys = ground (arith, any-append p xs ys)

abbrev pub is_nil {ℓ} : {A : Type ℓ} → List A → Bool
is_nil [] = true
is_nil (x ∷ xs) = false
