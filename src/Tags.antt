-- ===== src/Tags.antt =====
-- The names and tags of a VDI: pkg/xenorchestra-csi/clients/helpers.go and constants.go.
pub mod RoundTrip
use xenorchestra_csi_driver.Base.{String, List, [], ◌∷◌, ◌<>◌, has_prefix, after_prefix, char_eq}
use xenorchestra_csi_driver.Base.{if◌then◌else◌}

abbrev pub tag_prefix : String
tag_prefix = "k8s"

abbrev pub vdi_tag_key_volume_id : String
vdi_tag_key_volume_id = "volumeId"

abbrev pub vdi_tag_key_pv_name : String
vdi_tag_key_pv_name = "pvName"

abbrev pub vdi_tag_key_managed_by : String
vdi_tag_key_managed_by = "managedBy"

unfoldable pub build_vdi_name_label : String → String → String → String
build_vdi_name_label prefix volume_id volume_name = prefix <> volume_id <> "-" <> volume_name

unfoldable pub build_vdi_name_description : String → String
build_vdi_name_description volume_name =
    "VDI managed by the Kubernetes CSI; " <> "pv-name=" <> volume_name

unfoldable pub build_tag : String → String → String
build_tag key value = tag_prefix <> ":" <> key <> ":" <> value

-- `t[len(prefix):]` of the first tag that has the prefix.
scan_tags : List String → String → String
unfolding char_eq
scan_tags [] prefix = ""
scan_tags (t ∷ tags) prefix =
    if has_prefix t prefix then after_prefix t prefix else scan_tags tags prefix

unfoldable pub parse_tag_value : List String → String → String
unfolding scan_tags
parse_tag_value tags key = scan_tags tags (tag_prefix <> ":" <> key <> ":")
