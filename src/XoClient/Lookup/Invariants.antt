-- ===== src/XoClient/Lookup/Invariants.antt =====
-- A lookup writes nothing but tags: it keeps what the adding of tags keeps.
use xenorchestra_csi_driver.Base.{String, Option, none, some, List, [], ◌∷◌, Exec, ◌==◌, nat_eq}
use xenorchestra_csi_driver.Payloads.{Uuid, uuid_nil, Vdi}
use xenorchestra_csi_driver.Errors.{Error, is_not_found_error}
use xenorchestra_csi_driver.Library.{Library, Vendor}
use xenorchestra_csi_driver.World.{ListsOnly}
use xenorchestra_csi_driver.World.Keeps.{
  Keeps, Keeps-pure, Keeps-fail, Keeps-of_read, Keeps-if, Keeps-check, Keeps-map_err,
}
use xenorchestra_csi_driver.XoClient.Calls.{wrapped}
use xenorchestra_csi_driver.XoClient.Storage.Migration.{write_tags_to_vdi-Keeps}
use xenorchestra_csi_driver.XoClient.Lookup.{
  recovered, only_one, get_vdi_at, get_vdi_by_volume_id, tags_to_recover,
}

module _ {S : Type 0} (lib : Library S) (vendor : Vendor) {P : S → Type 0} (reads : ListsOnly lib)
    (tagging : (id : Uuid) (tag : String) → Keeps P (lib.vdi_add_tag id tag)) where
  recovered-Keeps : (volume_id : String) (vdi : Vdi) → Keeps P (recovered lib volume_id vdi)
  unfolding recovered
  recovered-Keeps volume_id vdi =
      Keeps-check _ _ _ (write_tags_to_vdi-Keeps lib tagging vdi.id (tags_to_recover vdi volume_id))
        Keeps-fail (λ _. Keeps-pure vdi)

  get_vdi_at-Keeps : (volume_id : String) (o : Option Uuid) → Keeps P (get_vdi_at lib volume_id o)
  unfolding get_vdi_at
  get_vdi_at-Keeps volume_id none = Keeps-fail _
  get_vdi_at-Keeps volume_id (some id) =
      Keeps-if (id == uuid_nil) _ _ (λ _. Keeps-fail _)
        (λ _.
          Keeps-check _ _ _ (Keeps-of_read (lib.vdi_get id) (reads.vdi_get id))
            (λ e. Keeps-if (is_not_found_error e) _ _ (λ _. Keeps-fail _) (λ _. Keeps-fail _))
            (recovered-Keeps volume_id))

  only_one-Keeps :
      (m : Exec S Error Vdi) (k : Vdi → Exec S Error Vdi)
      → Keeps P m
      → ((vdi : Vdi) → Keeps P (k vdi))
      → (vdis : List Vdi) → Keeps P (only_one m k vdis)
  only_one-Keeps m k km kk [] = km
  only_one-Keeps m k km kk (vdi ∷ []) = kk vdi
  only_one-Keeps m k km kk (_ ∷ _ ∷ _) = Keeps-fail _

  vdi_get_all-Keeps : (filter : String) → Keeps P (wrapped (lib.vdi_get_all 2 filter))
  vdi_get_all-Keeps filter =
      Keeps-map_err _ _ (Keeps-of_read (lib.vdi_get_all 2 filter) (reads.vdi_get_all 2 filter))

  -- A lookup by volume ID keeps every property of the world that the adding of tags keeps.
  pub get_vdi_by_volume_id-Keeps :
      (volume_id : String) → Keeps P (get_vdi_by_volume_id lib vendor volume_id)
  unfolding get_vdi_by_volume_id
  get_vdi_by_volume_id-Keeps volume_id = Keeps-check _ _ _ (vdi_get_all-Keeps _) Keeps-fail (
      only_one-Keeps _ _
        (Keeps-check _ _ _ (vdi_get_all-Keeps _) Keeps-fail (
          only_one-Keeps _ _ (get_vdi_at-Keeps volume_id (vendor.from_string volume_id))
            (recovered-Keeps volume_id)))
        Keeps-pure)
