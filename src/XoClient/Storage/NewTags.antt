-- ===== src/XoClient/Storage/NewTags.antt =====
-- The tags of a new volume.
use xenorchestra_csi_driver.Base.{String, ◌≡◌, refl, string_eq, char_eq, ◌==◌, Bool-cases, inl, inr}
use xenorchestra_csi_driver.Tags.{
  parse_tag_value, vdi_tag_key_volume_id, vdi_tag_key_pv_name, vdi_tag_key_managed_by,
}
use xenorchestra_csi_driver.XoClient.Storage.{new_volume_tags}

-- Each of the three tags of a new volume is read back under its key, whatever the volume ID, the PV
-- name, the manager and the cluster's tag are.
pub parse_tag_value-new_volume_tags :
    (volume_id volume_name managed_by cluster_tag : String)
    → let tags = new_volume_tags volume_id volume_name managed_by cluster_tag in
      (parse_tag_value tags vdi_tag_key_volume_id ≡ volume_id)
      × (parse_tag_value tags vdi_tag_key_pv_name ≡ volume_name)
      × (parse_tag_value tags vdi_tag_key_managed_by ≡ managed_by)
unfolding new_volume_tags parse_tag_value
parse_tag_value-new_volume_tags volume_id volume_name managed_by cluster_tag =
    elim (Bool-cases (cluster_tag == "")) [
      | inl e ↦ rw e (refl, refl, refl)
      | inr e ↦ rw e (refl, refl, refl)
    ]
