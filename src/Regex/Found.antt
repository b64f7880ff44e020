-- ===== src/Regex/Found.antt =====
-- What is among the matches of an expression: rules to find one, and that each splits the text.
use Prim.Native.Char.{Char}
use Prim.Native.String.{[], ◌∷◌}
use mathlib.Core.List.{Memᴰ}
use mathlib.Core.List.Memᴰ
use xenorchestra_csi_driver.Base.{
  ℕ, suc, ◌≤◌, String, Bool, true, false, ◌&&◌, List, ◌≡◌, refl, inl, inr, subst, ap, ◌<>◌, arith,
  if◌then◌else◌,
}
use xenorchestra_csi_driver.Regex.{
  Regex, one_of, seq, alt, star, empty_match, Match, matches, is_empty, then_match, and_then,
  nonempty, rounds,
}

-- The text `m` at the front, with `rest` behind it, is a way to match.
abbrev pub Found : Regex → Bool → String → String → String → Type 0
Found r at_start s m rest = Memᴰ (m, rest) (matches r at_start s)

Mem-then_match :
    (taken m rest : String) (ms : List Match)
    → Memᴰ (m, rest) ms
    → Memᴰ (taken <> m, rest) (then_match taken ms)
unfolding then_match
Mem-then_match taken m rest List.[] h = absurd (Memᴰ.not-nil h)
Mem-then_match taken m rest (List.◌∷◌ x ms) h = elim (Memᴰ.cases_cons h) [
  | inl e ↦ Memᴰ.head (ap (λ (p : Match). (taken <> p.0, p.1)) e)
  | inr later ↦ Memᴰ.tail (Mem-then_match taken m rest ms later)
]

Mem-and_then :
    (at_start : Bool) (m rest m' rest' : String) (ms : List Match) (k : Bool → String → List Match)
    → Memᴰ (m, rest) ms
    → Memᴰ (m', rest') (k (at_start && is_empty m) rest)
    → Memᴰ (m <> m', rest') (and_then at_start ms k)
unfolding and_then
Mem-and_then at_start m rest m' rest' List.[] k h g = absurd (Memᴰ.not-nil h)
Mem-and_then at_start m rest m' rest' (List.◌∷◌ x ms) k h g = elim (Memᴰ.cases_cons h) [
  | inl e ↦ Memᴰ.append_left _ (
      subst
        (λ (p : Match). Memᴰ (m <> m', rest') (then_match p.0 (k (at_start && is_empty p.0) p.1))) e
        (Mem-then_match m m' rest' (k (at_start && is_empty m) rest) g))
  | inr later ↦
      Memᴰ.append_right (then_match x.0 (k (at_start && is_empty x.0) x.1))
        (Mem-and_then at_start m rest m' rest' ms k later g)
]

Mem-unless :
    (b : Bool) {y : Match} (x : Match) (ms : List Match)
    → Memᴰ y ms
    → Memᴰ y (if b then ms else List.◌∷◌ x ms)
Mem-unless true x ms h = h
Mem-unless false x ms h = Memᴰ.tail h

Mem-nonempty :
    (c : Char) (m rest : String) (ms : List Match)
    → Memᴰ (c ∷ m, rest) ms
    → Memᴰ (c ∷ m, rest) (nonempty ms)
unfolding nonempty is_empty
Mem-nonempty c m rest List.[] h = absurd (Memᴰ.not-nil h)
Mem-nonempty c m rest (List.◌∷◌ x ms) h = elim (Memᴰ.cases_cons h) [
  | inl e ↦
      subst
        (λ (p : Match).
          Memᴰ (c ∷ m, rest) (if is_empty p.0 then nonempty ms else List.◌∷◌ p (nonempty ms)))
        e (Memᴰ.head refl)
  | inr later ↦ Mem-unless (is_empty x.0) x (nonempty ms) (Mem-nonempty c m rest ms later)
]

pub Found-one_of :
    (p : Char → Bool) (at_start : Bool) (c : Char) (s : String)
    → p c ≡ true
    → Found (one_of p) at_start (c ∷ s) (c ∷ "") s
unfolding matches
Found-one_of p at_start c s h = rw h (Memᴰ.head refl)

pub Found-seq :
    (r t : Regex) (at_start : Bool) (s m rest m' rest' : String)
    → Found r at_start s m rest
    → Found t (at_start && is_empty m) rest m' rest'
    → Found (seq r t) at_start s (m <> m') rest'
unfolding matches
Found-seq r t at_start s m rest m' rest' h g =
    Mem-and_then at_start m rest m' rest' (matches r at_start s) (matches t) h g

pub Found-left :
    (r t : Regex) (at_start : Bool) (s m rest : String)
    → Found r at_start s m rest
    → Found (alt r t) at_start s m rest
unfolding matches
Found-left r t at_start s m rest h = Memᴰ.append_left _ h

pub Found-right :
    (r t : Regex) (at_start : Bool) (s m rest : String)
    → Found t at_start s m rest
    → Found (alt r t) at_start s m rest
unfolding matches
Found-right r t at_start s m rest h = Memᴰ.append_right (matches r at_start s) h

pub Found-empty_match : (at_start : Bool) (s : String) → Found empty_match at_start s "" s
unfolding matches
Found-empty_match at_start s = Memᴰ.head refl

abbrev pub text_length : String → ℕ
text_length [] = 0
text_length (c ∷ s) = suc (text_length s)

-- Rounds of a repetition, none of which is empty.
pub data Rounds (r : Regex) : String → String → String → Type 0 where
  done : {s : String} → Rounds r s "" s
  round :
      {c : Char} {m rest m' rest' : String} {s : String}
      → ((at_start : Bool) → Found r at_start s (c ∷ m) rest)
      → suc (text_length rest) ≤ text_length s
      → Rounds r rest m' rest'
      → Rounds r s (c ∷ (m <> m')) rest'

Mem-rounds :
    (r : Regex) (fuel : String) (at_start : Bool) {s m rest : String}
    → text_length s ≤ text_length fuel
    → Rounds r s m rest
    → Memᴰ (m, rest) (rounds (matches r) fuel at_start s)
unfolding rounds
Mem-rounds r [] at_start l done = Memᴰ.head refl
Mem-rounds r (f ∷ fuel) at_start {s = s} l done =
    Memᴰ.append_right
      (and_then at_start (nonempty (matches r at_start s)) (rounds (matches r) fuel))
      (Memᴰ.head refl)
Mem-rounds r [] at_start l (round h g more) = absurd (omega arith)
Mem-rounds r (f ∷ fuel) at_start {s = s} l (round {c} {m} {rest} {m'} {rest'} h g more) =
    Memᴰ.append_left _ (
      Mem-and_then at_start (c ∷ m) rest m' rest' (nonempty (matches r at_start s))
        (rounds (matches r) fuel) (Mem-nonempty c m rest (matches r at_start s) (h at_start))
        (Mem-rounds r fuel _ (omega arith) more))

pub Found-star :
    (r : Regex) (at_start : Bool) (s m rest : String)
    → Rounds r s m rest
    → Found (star r) at_start s m rest
unfolding matches
Found-star r at_start s m rest h = Mem-rounds r s at_start (omega arith) h
