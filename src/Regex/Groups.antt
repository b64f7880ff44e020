-- ===== src/Regex/Groups.antt =====
-- Which match becomes the group.
use Prim.Native.Char.{Char}
use Prim.Native.String.{[], ◌∷◌}
use mathlib.Core.List.{Memᴰ}
use mathlib.Core.List.Memᴰ
use xenorchestra_csi_driver.Base.{
  String, Bool, true, false, ◌&&◌, some, List, All, ◌≡◌, refl, inl, inr, sym, ap, ◌∙◌, ◌<>◌, <>_nil,
  arith,
}
use xenorchestra_csi_driver.Regex.{Regex, Match, matches, is_empty, has_match, first_group}
use xenorchestra_csi_driver.Regex.Splits.{Split}

abbrev pub every : (Char → Bool) → String → Bool
every p [] = true
every p (c ∷ s) = p c && every p s

pub every-<> : (p : Char → Bool) (s t : String) → every p (s <> t) ≡ (every p s && every p t)
every-<> p [] t = refl
every-<> p (c ∷ s) t = ground (arith, every-<> p s t)

-- What stands behind the group matches at the end of the text, and at no character with `p`.
module _ (behind : Regex) (p : Char → Bool)
    (on_end : (b : Bool) → has_match (matches behind b "") ≡ true)
    (on_char : (b : Bool) (c : Char) (rest : String)
      → p c ≡ true
      → has_match (matches behind b (c ∷ rest)) ≡ false) where
  pub first_group_of_Split :
      (name : String) (at_start : Bool) (ms : List Match)
      → every p name ≡ true
      → All (Split name) ms
      → Memᴰ (name, "") ms
      → first_group behind at_start ms ≡ some name
  unfolding first_group
  first_group_of_Split name at_start List.[] plain split m = absurd (Memᴰ.not-nil m)
  first_group_of_Split name at_start (List.◌∷◌ (g, []) ms) plain split m =
      rw (on_end (at_start && is_empty g)) (ap some (sym (<>_nil g) ∙ split.0))
  first_group_of_Split name at_start (List.◌∷◌ (g, c ∷ rest) ms) plain split m =
      let its : every p (g <> (c ∷ rest)) ≡ true = ap (every p) split.0 ∙ plain in
      let stops : p c ≡ true = ground (arith, every-<> p g (c ∷ rest), its) in
      rw (on_char (at_start && is_empty g) c rest stops) (elim (Memᴰ.cases_cons m) [
        | inl e ↦ cc
        | inr later ↦ first_group_of_Split name at_start ms plain split.1 later
      ])
