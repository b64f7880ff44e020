-- ===== src/Regex/Splits.antt =====
-- Each match splits the text that it was looked for in.
use Prim.Native.String.{[], ◌∷◌}
use xenorchestra_csi_driver.Base.{
  String, Bool, true, false, ◌&&◌, List, ◌++◌, All, ◌≡◌, refl, inl, inr, ap, ◌∙◌, ◌<>◌, <>_assoc,
  if◌then◌else◌, Bool-cases,
}
use xenorchestra_csi_driver.Regex.{
  Regex, one_of, seq, alt, star, empty_match, start_of_text, end_of_text, Match, matches, is_empty,
  then_match, and_then, nonempty, rounds,
}

abbrev pub Split : String → Match → Type 0
Split s p = p.0 <> p.1 ≡ s

All-append : (P : Match → Type 0) (l k : List Match) → All P l → All P k → All P (l ++ k)
All-append P List.[] k h g = g
All-append P (List.◌∷◌ x l) k h g = (h.0, All-append P l k h.1 g)

Split-then_match :
    (s taken rest : String) (ms : List Match)
    → taken <> rest ≡ s
    → All (Split rest) ms
    → All (Split s) (then_match taken ms)
unfolding then_match
Split-then_match s taken rest List.[] e h = tt
Split-then_match s taken rest (List.◌∷◌ x ms) e h =
    (<>_assoc taken x.0 x.1 ∙ ap (λ t. taken <> t) h.0 ∙ e, Split-then_match s taken rest ms e h.1)

Split-and_then :
    (s : String) (at_start : Bool) (ms : List Match) (k : Bool → String → List Match)
    → All (Split s) ms
    → ((b : Bool) (rest : String) → All (Split rest) (k b rest))
    → All (Split s) (and_then at_start ms k)
unfolding and_then
Split-and_then s at_start List.[] k h g = tt
Split-and_then s at_start (List.◌∷◌ x ms) k h g =
    All-append (Split s) _ _
      (Split-then_match s x.0 x.1 (k (at_start && is_empty x.0) x.1) h.0
        (g (at_start && is_empty x.0) x.1))
      (Split-and_then s at_start ms k h.1 g)

All-unless :
    (P : Match → Type 0) (b : Bool) (x : Match) (ms : List Match)
    → P x
    → All P ms
    → All P (if b then ms else List.◌∷◌ x ms)
All-unless P true x ms p h = h
All-unless P false x ms p h = (p, h)

Split-nonempty : (s : String) (ms : List Match) → All (Split s) ms → All (Split s) (nonempty ms)
unfolding nonempty
Split-nonempty s List.[] h = tt
Split-nonempty s (List.◌∷◌ x ms) h =
    All-unless (Split s) (is_empty x.0) x (nonempty ms) h.0 (Split-nonempty s ms h.1)

Split-rounds :
    (step : Bool → String → List Match)
    → ((b : Bool) (rest : String) → All (Split rest) (step b rest))
    → (fuel : String) (at_start : Bool) (s : String) → All (Split s) (rounds step fuel at_start s)
unfolding rounds
Split-rounds step h [] at_start s = (refl, tt)
Split-rounds step h (f ∷ fuel) at_start s =
    All-append (Split s) _ _
      (Split-and_then s at_start (nonempty (step at_start s)) (rounds step fuel)
        (Split-nonempty s (step at_start s) (h at_start s)) (Split-rounds step h fuel))
      (refl, tt)

pub matches-Split :
    (r : Regex) (at_start : Bool) (s : String) → All (Split s) (matches r at_start s)
unfolding matches
matches-Split (one_of p) at_start [] = tt
matches-Split (one_of p) at_start (c ∷ s) = elim (Bool-cases (p c)) [
  | inl e ↦ rw e (refl, tt)
  | inr e ↦ rw e tt
]
matches-Split (seq r t) at_start s =
    Split-and_then s at_start (matches r at_start s) (matches t) (matches-Split r at_start s)
      (matches-Split t)
matches-Split (alt r t) at_start s =
    All-append (Split s) _ _ (matches-Split r at_start s) (matches-Split t at_start s)
matches-Split (star r) at_start s = Split-rounds (matches r) (matches-Split r) s at_start s
matches-Split empty_match at_start s = (refl, tt)
matches-Split start_of_text true s = (refl, tt)
matches-Split start_of_text false s = tt
matches-Split end_of_text at_start [] = (refl, tt)
matches-Split end_of_text at_start (c ∷ s) = tt
