-- ===== src/Examples/Memory/Filters.antt =====
-- The reading of filters on tags.
use Prim.Native.Char.{Char}
use xenorchestra_csi_driver.Base.{
  String, Bool, true, false, ◌≡◌, refl, inl, inr, ◌==◌, nat_eq, string_eq, char_eq, option_eq,
  if◌then◌else◌, ◌<>◌, after_prefix, arith, ap, Bool-cases,
}
use xenorchestra_csi_driver.Regex.{is_meta, quote_meta}
use xenorchestra_csi_driver.Tags.{build_tag}
use xenorchestra_csi_driver.XoClient.{build_tag_filter}

-- The tag that a filter "tags:/^tag$/" asks for.
abbrev read : Bool → String → String
read escaped String.[] = ""
read true (String.◌∷◌ c s) = String.◌∷◌ c (read false s)
read false (String.◌∷◌ c s) =
    let more = read false s in
    let skip = read true s in if c == "\\" then skip else if c == "$" then "" else String.◌∷◌ c more

backslash_same : ◌==◌ {A = Char} "\\" "\\" ≡ true
unfolding char_eq
backslash_same = refl

not_backslash : (c : Char) → is_meta c ≡ false → (c == "\\") ≡ false
unfolding is_meta
not_backslash c h = ground arith

not_dollar : (c : Char) → is_meta c ≡ false → (c == "$") ≡ false
unfolding is_meta
not_dollar c h = ground arith

dollar_not_backslash : ◌==◌ {A = Char} "$" "\\" ≡ false
unfolding char_eq
dollar_not_backslash = refl

dollar_same : ◌==◌ {A = Char} "$" "$" ≡ true
unfolding char_eq
dollar_same = refl

read-quote_meta : (s : String) → read false (quote_meta s <> "$/") ≡ s
unfolding quote_meta
read-quote_meta String.[] = rw (dollar_not_backslash, dollar_same)
read-quote_meta (String.◌∷◌ c s) = elim (Bool-cases (is_meta c)) [
  | inl meta ↦ rw (meta, backslash_same) (ap (λ t. String.◌∷◌ c t) (read-quote_meta s))
  | inr plain ↦
      rw (plain, not_backslash c plain, not_dollar c plain)
        (ap (λ t. String.◌∷◌ c t) (read-quote_meta s))
]

abbrev pub tag_in : String → String
tag_in filter = read false (after_prefix filter "tags:/^")

pub tag_in-build_tag_filter :
    (key value : String) → tag_in (build_tag_filter key value) ≡ build_tag key value
unfolding build_tag_filter
tag_in-build_tag_filter key value = read-quote_meta (build_tag key value)
