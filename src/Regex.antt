-- ===== src/Regex.antt =====
-- The parts of Go's `regexp` that the driver uses. A match prefers what Go's does: the leftmost, and
-- there the first in the order of the alternatives, a repetition taking more before less.
pub mod Found
pub mod Splits
pub mod Groups
use Prim.Native.Char.{Char}
use Prim.Native.String.{[], ◌∷◌}
use xenorchestra_csi_driver.Base.{String, Bool, true, false, ◌&&◌, Option, none, some}
use xenorchestra_csi_driver.Base.{List, ◌++◌, ◌==◌, char_eq, ◌<>◌, contains_text}
use xenorchestra_csi_driver.Base.{if◌then◌else◌}

pub data Regex : Type 0 where
  one_of : (Char → Bool) → Regex
  seq alt : Regex → Regex → Regex
  star : Regex → Regex
  empty_match start_of_text end_of_text : Regex

-- A way to match: the text that it takes, and the text behind it.
abbrev pub Match : Type 0
Match = String × String

pub is_empty : String → Bool
is_empty [] = true
is_empty (c ∷ s) = false

pub then_match : String → List Match → List Match
then_match taken List.[] = List.[]
then_match taken (List.◌∷◌ (m, rest) ms) = List.◌∷◌ (taken <> m, rest) (then_match taken ms)

-- Go on behind each match in turn. At the start of the text are only matches that took nothing.
pub and_then : Bool → List Match → (Bool → String → List Match) → List Match
and_then at_start List.[] k = List.[]
and_then at_start (List.◌∷◌ (m, rest) ms) k =
    then_match m (k (at_start && is_empty m) rest) ++ and_then at_start ms k

pub nonempty : List Match → List Match
nonempty List.[] = List.[]
nonempty (List.◌∷◌ (m, rest) ms) =
    let others = nonempty ms in if is_empty m then others else List.◌∷◌ (m, rest) others

-- Each round takes a character at least, so the text itself is enough fuel.
pub rounds : (Bool → String → List Match) → String → Bool → String → List Match
rounds step [] at_start s = List.◌∷◌ ("", s) List.[]
rounds step (f ∷ fuel) at_start s =
    and_then at_start (nonempty (step at_start s)) (rounds step fuel) ++ List.◌∷◌ ("", s) List.[]

-- The ways to match at the front of a text, the preferred one first.
unfoldable pub matches : Regex → Bool → String → List Match
unfolding then_match and_then nonempty rounds is_empty
matches (one_of p) at_start [] = List.[]
matches (one_of p) at_start (c ∷ s) = if p c then List.◌∷◌ (c ∷ "", s) List.[] else List.[]
matches (seq r t) at_start s = and_then at_start (matches r at_start s) (matches t)
matches (alt r t) at_start s = matches r at_start s ++ matches t at_start s
matches (star r) at_start s = rounds (matches r) s at_start s
matches empty_match at_start s = List.◌∷◌ ("", s) List.[]
matches start_of_text at_start s = if at_start then List.◌∷◌ ("", s) List.[] else List.[]
matches end_of_text at_start [] = List.◌∷◌ ("", "") List.[]
matches end_of_text at_start (c ∷ s) = List.[]

-- A text by its characters: what `regexp.QuoteMeta(s)` means in an expression, before `r`.
unfoldable pub literal : String → Regex → Regex
unfolding char_eq
literal [] r = r
literal (c ∷ s) r = seq (one_of (λ d. d == c)) (literal s r)

-- The group `( )` of the first match of `before ( group ) behind` at the front of a text.
unfoldable pub has_match : List Match → Bool
has_match List.[] = false
has_match (List.◌∷◌ m ms) = true

pub first_group : Regex → Bool → List Match → Option String
first_group behind at_start List.[] = none
first_group behind at_start (List.◌∷◌ (g, rest) ms) =
    let others = first_group behind at_start ms in
    if has_match (matches behind (at_start && is_empty g) rest) then some g else others

pub group_after : Regex → Regex → Bool → List Match → Option String
group_after group behind at_start List.[] = none
group_after group behind at_start (List.◌∷◌ (m, rest) ms) =
    let others = group_after group behind at_start ms in
    let start = at_start && is_empty m in
    elim (first_group behind start (matches group start rest)) [ some g ↦ some g | none ↦ others ]

pub find_from : Regex → Regex → Regex → Bool → String → Option String
find_from before group behind at_start [] =
    group_after group behind at_start (matches before at_start "")
find_from before group behind at_start (c ∷ s) =
    let later = find_from before group behind false s in
    elim (group_after group behind at_start (matches before at_start (c ∷ s))) [
      | some g ↦ some g
      | none ↦ later
    ]

-- `FindStringSubmatch` of `before ( group ) behind`: the text of the group.
unfoldable pub find_group : Regex → Regex → Regex → String → Option String
unfolding matches has_match first_group group_after find_from
find_group before group behind s = find_from before group behind true s

-- `regexp.QuoteMeta`
unfoldable pub is_meta : Char → Bool
unfolding char_eq
is_meta c = contains_text "\\.+*?()|[]{}^$" (c ∷ "")

unfoldable pub quote_meta : String → String
quote_meta [] = ""
quote_meta (c ∷ s) = let rest = c ∷ quote_meta s in if is_meta c then "\\" <> rest else rest
