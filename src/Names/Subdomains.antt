-- ===== src/Names/Subdomains.antt =====
-- The names that Kubernetes gives to volumes: DNS subdomains of RFC 1123, and how the expression matches them.
use Prim.Native.Char.{Char}
use Prim.Native.String.{[], ◌∷◌}
use xenorchestra_csi_driver.Base.{
  ◌≤◌, String, Bool, true, false, not, ◌&&◌, ◌||◌, ◌≡◌, refl, inl, inr, sym, subst, ◌<>◌, <>_assoc,
  arith, Bool-cases, contains_text, char_eq, string_eq, ◌==◌,
}
use xenorchestra_csi_driver.Regex.{Regex, one_of, seq, alt, star, empty_match, literal, is_empty}
use xenorchestra_csi_driver.Regex.Found.{
  Found, Found-one_of, Found-seq, Found-left, Found-right, Found-empty_match, Found-star, Rounds,
  done, round, text_length,
}
use xenorchestra_csi_driver.Regex.Groups.{every, every-<>}
use xenorchestra_csi_driver.Names.{
  is_alphanumeric, is_label_char, is_space, dns1123_label, dns1123_subdomain,
}

-- A label: letters, digits and dashes, with no dash at its ends.
pub data IsLabel : String → Type 0 where
  single : {c : Char} → is_alphanumeric c ≡ true → IsLabel (c ∷ "")
  framed :
      (c d : Char) (m : String)
      → is_alphanumeric c ≡ true
      → every is_label_char m ≡ true
      → is_alphanumeric d ≡ true
      → IsLabel (c ∷ (m <> (d ∷ "")))

-- More labels, each after a dot.
pub data AreLabels : String → Type 0 where
  no_more : AreLabels ""
  dotted : (l t : String) → IsLabel l → AreLabels t → AreLabels ("." <> (l <> t))

pub data IsSubdomain : String → Type 0 where
  labels : (l t : String) → IsLabel l → AreLabels t → IsSubdomain (l <> t)

text_length-<> : (s t : String) → text_length t ≤ text_length (s <> t)
text_length-<> [] t = omega arith
text_length-<> (c ∷ s) t = let more = text_length-<> s t in omega arith

run-Rounds : (p : Char → Bool) (m t : String) → every p m ≡ true → Rounds (one_of p) (m <> t) m t
run-Rounds p [] t h = done
run-Rounds p (c ∷ m) t h =
    round {m = ""} (λ b. Found-one_of p b c (m <> t) (ground arith)) (omega arith)
      (run-Rounds p m t (ground arith))

abbrev label_end : Regex
label_end = alt (seq (star (one_of is_label_char)) (one_of is_alphanumeric)) empty_match

IsLabel-Found :
    {l : String} (at_start : Bool) (t : String)
    → IsLabel l
    → Found dns1123_label at_start (l <> t) l t
IsLabel-Found at_start t (single {c} h) =
    Found-seq (one_of is_alphanumeric) label_end at_start (c ∷ t) (c ∷ "") t "" t
      (Found-one_of is_alphanumeric at_start c t h)
      (Found-right (seq (star (one_of is_label_char)) (one_of is_alphanumeric)) empty_match _ t "" t
        (Found-empty_match _ t))
IsLabel-Found at_start t (framed c d m h g k) =
    Found-seq (one_of is_alphanumeric) label_end at_start (c ∷ ((m <> (d ∷ "")) <> t)) (c ∷ "")
      ((m <> (d ∷ "")) <> t) (m <> (d ∷ "")) t
      (Found-one_of is_alphanumeric at_start c ((m <> (d ∷ "")) <> t) h)
      (Found-left (seq (star (one_of is_label_char)) (one_of is_alphanumeric)) empty_match _
        ((m <> (d ∷ "")) <> t) (m <> (d ∷ "")) t
        (subst
          (λ u.
            Found (seq (star (one_of is_label_char)) (one_of is_alphanumeric))
              (at_start && is_empty (c ∷ "")) u (m <> (d ∷ "")) t)
          (sym (<>_assoc m (d ∷ "") t))
          (Found-seq (star (one_of is_label_char)) (one_of is_alphanumeric) _ (m <> (d ∷ t)) m
            (d ∷ t) (d ∷ "") t
            (Found-star (one_of is_label_char) _ (m <> (d ∷ t)) m (d ∷ t)
              (run-Rounds is_label_char m (d ∷ t) g))
            (Found-one_of is_alphanumeric _ d t k))))

AreLabels-Rounds : {t : String} → AreLabels t → Rounds (literal "." dns1123_label) t t ""
unfolding literal char_eq
AreLabels-Rounds no_more = done
AreLabels-Rounds (dotted l t h more) =
    round {m = l}
      (λ b.
        Found-seq _ dns1123_label b ("." <> (l <> t)) "." (l <> t) l t
          (Found-one_of _ b _ (l <> t) refl) (IsLabel-Found _ t h))
      (let n = text_length-<> l t in omega arith) (AreLabels-Rounds more)

pub IsSubdomain-Found :
    {name : String} (at_start : Bool)
    → IsSubdomain name
    → Found dns1123_subdomain at_start name name ""
IsSubdomain-Found at_start (labels l t h more) =
    Found-seq dns1123_label (star (literal "." dns1123_label)) at_start (l <> t) l t t ""
      (IsLabel-Found at_start t h)
      (Found-star (literal "." dns1123_label) _ t t "" (AreLabels-Rounds more))

-- What stands behind a name in a description: a space, a semicolon or the end.
abbrev pub is_separator : Char → Bool
is_separator c = is_space c || contains_text ";" (c ∷ "")

abbrev pub is_plain : Char → Bool
is_plain c = not (is_separator c)

apart : (d c : Char) → is_alphanumeric c ≡ true → is_alphanumeric d ≡ false → (d == c) ≡ false
apart d c h g = elim (Bool-cases (d == c)) [
  | inl e ↦ let same : d ≡ c = ground arith in cc (same, h, g)
  | inr e ↦ e
]

plain_of_apart :
    (c : Char) → ((d : Char) → is_alphanumeric d ≡ false → (d == c) ≡ false) → is_plain c ≡ true
unfolding is_alphanumeric is_space
plain_of_apart c h =
    rw (h "\t" refl, h "\n" refl, h "\u{c}" refl, h "\r" refl, h " " refl, h ";" refl) refl

alphanumeric_plain : (c : Char) → is_alphanumeric c ≡ true → is_plain c ≡ true
alphanumeric_plain c h = plain_of_apart c (λ d g. apart d c h g)

abbrev dash : Char
dash = "-"

eq_of_same : (d c : Char) → (d == c) ≡ true → d ≡ c
eq_of_same d c h = ground arith

dash_plain : is_plain dash ≡ true
unfolding is_space char_eq
dash_plain = refl

dot_plain : every is_plain "." ≡ true
unfolding is_space char_eq
dot_plain = refl

label_char_plain : (c : Char) → is_label_char c ≡ true → is_plain c ≡ true
unfolding is_label_char
label_char_plain c h = elim (Bool-cases (is_alphanumeric c)) [
  | inl e ↦ alphanumeric_plain c e
  | inr e ↦ elim (Bool-cases (dash == c)) [
    | inl s ↦ subst (λ d. is_plain d ≡ true) (eq_of_same dash c s) dash_plain
    | inr s ↦ let absurd_test : false ≡ true = rw (s, e) at h in cc
  ]
]

every-imp :
    (p q : Char → Bool) (s : String)
    → ((c : Char) → p c ≡ true → q c ≡ true)
    → every p s ≡ true
    → every q s ≡ true
every-imp p q [] f h = refl
every-imp p q (c ∷ s) f h =
    let first = f c (ground arith) in
    let others = every-imp p q s f (ground arith) in ground (arith, first, others)

IsLabel-plain : {l : String} → IsLabel l → every is_plain l ≡ true
IsLabel-plain (single {c} h) = rw (alphanumeric_plain c h) refl
IsLabel-plain (framed c d m h g k) =
    rw
      (
        alphanumeric_plain c h,
        every-<> is_plain m (d ∷ ""),
        every-imp is_label_char is_plain m label_char_plain g,
        alphanumeric_plain d k,
      )
      refl

AreLabels-plain : {t : String} → AreLabels t → every is_plain t ≡ true
unfolding is_space
AreLabels-plain no_more = refl
AreLabels-plain (dotted l t h more) =
    rw (dot_plain, every-<> is_plain l t, IsLabel-plain h, AreLabels-plain more) refl

pub IsSubdomain-plain : {name : String} → IsSubdomain name → every is_plain name ≡ true
IsSubdomain-plain (labels l t h more) =
    rw (every-<> is_plain l t, IsLabel-plain h, AreLabels-plain more) refl

eq_of_same_text : (s t : String) → (s == t) ≡ true → s ≡ t
eq_of_same_text s t h = ground arith

not_empty : (c : Char) (s : String) → ((c ∷ s) == "") ≡ false
not_empty c s = elim (Bool-cases ((c ∷ s) == "")) [
  | inl e ↦ let same : c ∷ s ≡ "" = eq_of_same_text (c ∷ s) "" e in cc
  | inr e ↦ e
]

pub IsSubdomain-nonempty : {name : String} → IsSubdomain name → (name == "") ≡ false
IsSubdomain-nonempty (labels l t (single {c} h) more) = not_empty c t
IsSubdomain-nonempty (labels l t (framed c d m h g k) more) = not_empty c ((m <> (d ∷ "")) <> t)
