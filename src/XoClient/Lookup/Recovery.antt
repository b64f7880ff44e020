-- ===== src/XoClient/Lookup/Recovery.antt =====
-- The tags that are written back to a VDI which lost them (pkg/xenorchestra-csi/clients/xoclient.go).
use xenorchestra_csi_driver.Base.{
  String, [], ◌∷◌, ◌≡◌, refl, sym, char_eq, ap, ◌∙◌, string_eq, arith,
}
use xenorchestra_csi_driver.Payloads.{Vdi}
use xenorchestra_csi_driver.Tags.{
  build_tag, build_vdi_name_description, parse_tag_value, vdi_tag_key_volume_id,
  vdi_tag_key_pv_name,
}
use xenorchestra_csi_driver.Names.{
  parse_volume_name_from_vdi_name_description, recover_volume_name_from_vdi,
}
use xenorchestra_csi_driver.Names.Subdomains.{IsSubdomain, IsSubdomain-nonempty}
use xenorchestra_csi_driver.Names.RoundTrip.{
  parse_volume_name_from_vdi_name_description-build_vdi_name_description,
}
use xenorchestra_csi_driver.XoClient.Storage.{new_volume_tags}
use xenorchestra_csi_driver.XoClient.Storage.NewTags.{parse_tag_value-new_volume_tags}
use xenorchestra_csi_driver.XoClient.Lookup.{tags_to_recover}

recovered_name :
    (vdi : Vdi) (volume_id name : String)
    → IsSubdomain name
    → vdi.name_description ≡ build_vdi_name_description name
    → recover_volume_name_from_vdi vdi volume_id ≡ name
unfolding recover_volume_name_from_vdi
recovered_name vdi volume_id name h e =
    let read : parse_volume_name_from_vdi_name_description vdi.name_description ≡ name =
      ap parse_volume_name_from_vdi_name_description e
      ∙ parse_volume_name_from_vdi_name_description-build_vdi_name_description name h in
    let nonempty = IsSubdomain-nonempty h in rw read (ground (arith, nonempty))

recovered_tags :
    (vdi : Vdi) (volume_id name : String)
    → IsSubdomain name
    → vdi.name_description ≡ build_vdi_name_description name
    → tags_to_recover vdi volume_id
      ≡ build_tag vdi_tag_key_volume_id volume_id ∷ build_tag vdi_tag_key_pv_name name ∷ []
unfolding tags_to_recover
recovered_tags vdi volume_id name h e =
    rw (recovered_name vdi volume_id name h e, IsSubdomain-nonempty h) refl

read_back :
    (volume_id name : String)
    → let tags =
        build_tag vdi_tag_key_volume_id volume_id ∷ build_tag vdi_tag_key_pv_name name ∷ [] in
      (parse_tag_value tags vdi_tag_key_volume_id ≡ volume_id)
      × (parse_tag_value tags vdi_tag_key_pv_name ≡ name)
unfolding parse_tag_value build_tag char_eq
read_back volume_id name = (refl, refl)

-- What is written back to a VDI that was made for a volume, and whose description was kept, has the same
-- volume ID and the same PV name as the tags that the VDI was made with, if that name is a DNS subdomain.
pub tags_to_recover-new_volume_tags :
    (vdi : Vdi) (volume_id name managed_by cluster_tag : String)
    → IsSubdomain name
    → vdi.name_description ≡ build_vdi_name_description name
    → let tags = tags_to_recover vdi volume_id in
      let made = new_volume_tags volume_id name managed_by cluster_tag in
      (parse_tag_value tags vdi_tag_key_volume_id ≡ parse_tag_value made vdi_tag_key_volume_id)
      × (parse_tag_value tags vdi_tag_key_pv_name ≡ parse_tag_value made vdi_tag_key_pv_name)
tags_to_recover-new_volume_tags vdi volume_id name managed_by cluster_tag h e =
    let tags = recovered_tags vdi volume_id name h e in
    let (its_id, its_name) = read_back volume_id name in
    let (made_id, made_name, _) =
      parse_tag_value-new_volume_tags volume_id name managed_by cluster_tag in
    (
      ap (λ l. parse_tag_value l vdi_tag_key_volume_id) tags ∙ its_id ∙ sym made_id,
      ap (λ l. parse_tag_value l vdi_tag_key_pv_name) tags ∙ its_name ∙ sym made_name,
    )
