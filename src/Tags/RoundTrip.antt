-- ===== src/Tags/RoundTrip.antt =====
-- Tags are read back: `ParseTagValue` after `BuildTag`.
use xenorchestra_csi_driver.Base.{
  String, ◌≡◌, refl, false, List, [], ◌∷◌, ◌++◌, ◌<>◌, <>_assoc, All, has_prefix, has_prefix-<>,
  after_prefix-<>, string_eq, char_eq, arith, ◌∙◌,
}
use xenorchestra_csi_driver.Tags.{build_tag, parse_tag_value, scan_tags, tag_prefix}

scan_tags-append :
    (before tags : List String) (prefix : String)
    → All (λ t. has_prefix t prefix ≡ false) before
    → scan_tags (before ++ tags) prefix ≡ scan_tags tags prefix
unfolding scan_tags
scan_tags-append [] tags prefix h = refl
scan_tags-append (t ∷ before) tags prefix h =
    ground (arith, scan_tags-append before tags prefix h.1)

-- Behind tags of other keys, the first tag that was built for a key gives its value back, whatever
-- the value and whatever tags follow.
parse_tag_value-build_tag :
    (before behind : List String) (key value : String)
    → All (λ t. has_prefix t (tag_prefix <> ":" <> key <> ":") ≡ false) before
    → parse_tag_value (before ++ build_tag key value ∷ behind) key ≡ value
unfolding parse_tag_value build_tag
parse_tag_value-build_tag before behind key value h =
    scan_tags-append before (build_tag key value ∷ behind) (tag_prefix <> ":" <> key <> ":") h
    ∙ rw (
      ← <>_assoc key ":" value,
      has_prefix-<> (key <> ":") value,
      after_prefix-<> (key <> ":") value,
    )
