-- ===== src/Names/RoundTrip.antt =====
-- The PV name is read back from the description and the label of a VDI
-- (pkg/xenorchestra-csi/clients/helpers.go).
use Prim.Native.Char.{Char}
use Prim.Native.String.{◌∷◌}
use xenorchestra_csi_driver.Base.{
  String, Bool, true, false, ◌||◌, Option, none, some, ◌≡◌, refl, arith, contains_text, char_eq,
  string_eq,
}
use xenorchestra_csi_driver.Regex.{Regex, one_of, alt, end_of_text, matches, has_match, first_group}
use xenorchestra_csi_driver.Regex.Splits.{matches-Split}
use xenorchestra_csi_driver.Regex.Groups.{first_group_of_Split}
use xenorchestra_csi_driver.Tags.{build_vdi_name_description}
use xenorchestra_csi_driver.Names.{
  is_space, dns1123_subdomain, parse_volume_name_from_vdi_name_description,
}
use xenorchestra_csi_driver.Names.Subdomains.{
  IsSubdomain, IsSubdomain-Found, IsSubdomain-plain, is_separator, is_plain,
}

abbrev behind_name : Regex
behind_name = alt (one_of (λ c. is_space c || contains_text ";" (c ∷ ""))) end_of_text

behind_on_end : (b : Bool) → has_match (matches behind_name b "") ≡ true
unfolding matches has_match
behind_on_end b = refl

behind_on_char :
    (b : Bool) (c : Char) (rest : String)
    → is_plain c ≡ true
    → has_match (matches behind_name b (c ∷ rest)) ≡ false
unfolding matches has_match
behind_on_char b c rest h = let plain : is_separator c ≡ false = ground arith in rw plain refl

name_group :
    (name : String)
    → IsSubdomain name
    → first_group behind_name false (matches dns1123_subdomain false name) ≡ some name
name_group name h =
    first_group_of_Split behind_name is_plain behind_on_end behind_on_char name false
      (matches dns1123_subdomain false name) (IsSubdomain-plain h)
      (matches-Split dns1123_subdomain false name) (IsSubdomain-Found false h)

-- A group that was found is taken, whatever the other matches and the other places of the text hold.
first_found :
    (group others later : Option String) (name : String)
    → group ≡ some name
    → (elim (elim (elim group as (λ _. Option String) [ none ↦ others | some g ↦ some g ])
          as (λ _. Option String) [ none ↦ later | some g ↦ some g ])
        as (λ _. String) [ none ↦ "" | some volume_name ↦ volume_name ])
      ≡ name
first_found group others later name h = rw h refl

-- The PV name that the description of a new VDI holds is read back from it, if it is a DNS subdomain, as
-- Kubernetes has it.
pub parse_volume_name_from_vdi_name_description-build_vdi_name_description :
    (name : String)
    → IsSubdomain name
    → parse_volume_name_from_vdi_name_description (build_vdi_name_description name) ≡ name
unfolding parse_volume_name_from_vdi_name_description build_vdi_name_description matches char_eq
parse_volume_name_from_vdi_name_description-build_vdi_name_description name h =
    first_found (first_group behind_name false (matches dns1123_subdomain false name)) _ _ name
      (name_group name h)
