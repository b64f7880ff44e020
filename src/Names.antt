-- ===== src/Names.antt =====
-- The PV name of a VDI whose tags were erased: the parsers of
-- pkg/xenorchestra-csi/clients/helpers.go.
pub mod Subdomains
pub mod RoundTrip
use Prim.Native.Char.{Char, code}
use xenorchestra_csi_driver.Base.{String, Bool, ◌||◌, ◌&&◌, none, some, leb}
use xenorchestra_csi_driver.Base.{◌==◌, string_eq, if◌then◌else◌, contains_text, char_eq}
use xenorchestra_csi_driver.Payloads.{Vdi}
use xenorchestra_csi_driver.Regex.{
  Regex, one_of, seq, alt, star, start_of_text, end_of_text, empty_match, literal, find_group,
}

-- `[a-z0-9]`
unfoldable pub is_alphanumeric : Char → Bool
is_alphanumeric c =
    (leb b'a' (code c) && leb (code c) b'z') || (leb b'0' (code c) && leb (code c) b'9')

-- `[-a-z0-9]`
unfoldable pub is_label_char : Char → Bool
unfolding is_alphanumeric char_eq
is_label_char c = contains_text "-" (String.◌∷◌ c "") || is_alphanumeric c

-- `\s`
pub is_space : Char → Bool
unfolding char_eq
is_space c = contains_text "\t\n\u{c}\r " (String.◌∷◌ c "")

-- `[a-z0-9](?:[-a-z0-9]*[a-z0-9])?`
abbrev pub dns1123_label : Regex
dns1123_label =
    seq (one_of is_alphanumeric)
      (alt (seq (star (one_of is_label_char)) (one_of is_alphanumeric)) empty_match)

-- The label, then `(?:\.label)*`.
abbrev pub dns1123_subdomain : Regex
dns1123_subdomain = seq dns1123_label (star (literal "." dns1123_label))

-- `(?:^|;)\s*pv-name=( )(?:[\s;]|$)`
unfoldable pub parse_volume_name_from_vdi_name_description : String → String
unfolding find_group literal is_alphanumeric is_label_char is_space char_eq
parse_volume_name_from_vdi_name_description name_description =
    elim (find_group
      (seq (alt start_of_text (literal ";" empty_match))
        (seq (star (one_of is_space)) (literal "pv-name=" empty_match)))
      dns1123_subdomain
      (alt (one_of (λ c. is_space c || contains_text ";" (String.◌∷◌ c ""))) end_of_text)
      name_description) [ none ↦ "" | some volume_name ↦ volume_name ]

-- `quoted-( )$`
unfoldable pub parse_volume_name_from_vdi_name_label : String → String → String
unfolding find_group literal is_alphanumeric is_label_char string_eq
parse_volume_name_from_vdi_name_label name_label volume_id =
    if volume_id == ""
    then ""
    else (elim (find_group (literal volume_id (literal "-" empty_match)) dns1123_subdomain
        end_of_text name_label) [ none ↦ "" | some volume_name ↦ volume_name ])

unfoldable pub recover_volume_name_from_vdi : Vdi → String → String
unfolding parse_volume_name_from_vdi_name_description parse_volume_name_from_vdi_name_label
    string_eq
recover_volume_name_from_vdi vdi volume_id =
    let volume_name = parse_volume_name_from_vdi_name_description vdi.name_description in
    if volume_name == ""
    then parse_volume_name_from_vdi_name_label vdi.name_label volume_id
    else volume_name
