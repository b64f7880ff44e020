-- ===== src/Examples/Names.antt =====
-- A PV name on its way through a description and back.
use xenorchestra_csi_driver.Base.{[], ◌≡◌, refl, char_eq}
use xenorchestra_csi_driver.Payloads.{Vdi}
use xenorchestra_csi_driver.Tags.{
  build_vdi_name_description, parse_tag_value, vdi_tag_key_volume_id, vdi_tag_key_pv_name,
}
use xenorchestra_csi_driver.Names.{
  is_alphanumeric, is_label_char, parse_volume_name_from_vdi_name_description,
}
use xenorchestra_csi_driver.Names.Subdomains.{single, framed, no_more, dotted, IsSubdomain, labels}
use xenorchestra_csi_driver.Names.RoundTrip.{
  parse_volume_name_from_vdi_name_description-build_vdi_name_description,
}
use xenorchestra_csi_driver.XoClient.Storage.{new_volume_tags}
use xenorchestra_csi_driver.XoClient.Lookup.{tags_to_recover}
use xenorchestra_csi_driver.XoClient.Lookup.Recovery.{tags_to_recover-new_volume_tags}
use xenorchestra_csi_driver.Examples.Data.{disk}

name-IsSubdomain : IsSubdomain "pvc-12.a"
unfolding is_alphanumeric is_label_char char_eq
name-IsSubdomain =
    labels "pvc-12" ".a" (framed "p" "2" "vc-1" refl refl refl)
      (dotted "a" "" (single refl) no_more)

parse_volume_name_from_vdi_name_description-build_vdi_name_description_example :
    parse_volume_name_from_vdi_name_description (build_vdi_name_description "pvc-12.a") ≡ "pvc-12.a"
parse_volume_name_from_vdi_name_description-build_vdi_name_description_example =
    parse_volume_name_from_vdi_name_description-build_vdi_name_description "pvc-12.a"
      name-IsSubdomain

-- A VDI without tags.
abbrev erased : Vdi
erased = record disk {
  name_description = "VDI managed by the Kubernetes CSI; pv-name=pvc-12.a";
  tags = [];
}

tags_to_recover-new_volume_tags_example :
    let tags = tags_to_recover erased "iu" in
    let made = new_volume_tags "iu" "pvc-12.a" "csi@1" "k8s-managed" in
    (parse_tag_value tags vdi_tag_key_volume_id ≡ parse_tag_value made vdi_tag_key_volume_id)
    × (parse_tag_value tags vdi_tag_key_pv_name ≡ parse_tag_value made vdi_tag_key_pv_name)
unfolding build_vdi_name_description
tags_to_recover-new_volume_tags_example =
    tags_to_recover-new_volume_tags erased "iu" "pvc-12.a" "csi@1" "k8s-managed" name-IsSubdomain
      refl
