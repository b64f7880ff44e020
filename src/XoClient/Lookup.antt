-- ===== src/XoClient/Lookup.antt =====
-- Finding a VDI by its volume ID or by its PV name (pkg/xenorchestra-csi/clients/xoclient.go).
pub mod Invariants
pub mod ByTag
pub mod Recovery
pub mod Again
pub mod Migrated
pub mod Stale
use xenorchestra_csi_driver.Base.{
  String, Option, none, some, List, [], ◌∷◌, Exec, pure, fail, check, ◌>>=◌, ◌>>◌, ◌==◌, string_eq,
  nat_eq, char_eq, if◌then◌else◌, ◌<>◌,
}
use xenorchestra_csi_driver.Payloads.{Uuid, uuid_nil, Vdi}
use xenorchestra_csi_driver.Errors.{
  Error, api, sentinel, wrap, err_volume_not_found, err_volume_id_ambiguous,
  err_volume_name_ambiguous, is_not_found_error,
}
use xenorchestra_csi_driver.Library.{Library, Vendor}
use xenorchestra_csi_driver.Regex.{quote_meta}
use xenorchestra_csi_driver.Tags.{
  build_tag, parse_tag_value, vdi_tag_key_volume_id, vdi_tag_key_pv_name,
}
use xenorchestra_csi_driver.Names.{recover_volume_name_from_vdi}
use xenorchestra_csi_driver.XoClient.Calls.{wrapped}
use xenorchestra_csi_driver.XoClient.Storage.{write_tags_to_vdi}

unfoldable pub build_tag_filter : String → String → String
unfolding quote_meta build_tag
build_tag_filter key value = "tags:/^" <> quote_meta (build_tag key value) <> "$/"

-- The tests on `len(vdis)`, for a list of at most two.
abbrev only_one :
    {S : Type 0} → Exec S Error Vdi → (Vdi → Exec S Error Vdi) → List Vdi → Exec S Error Vdi
only_one none_found found [] = none_found
only_one none_found found (vdi ∷ []) = found vdi
only_one none_found found (_ ∷ _ ∷ _) = fail (wrap (sentinel err_volume_id_ambiguous))

-- The `switch` on `len(vdis)` of `FindVDIByVolumeName`.
unfoldable pub the_named_vdi : {S : Type 0} → List Vdi → Exec S Error (Vdi × String)
the_named_vdi [] = fail (sentinel err_volume_not_found)
the_named_vdi (vdi ∷ []) = pure (vdi, parse_tag_value vdi.tags vdi_tag_key_volume_id)
the_named_vdi (_ ∷ _ ∷ _) = fail (wrap (sentinel err_volume_name_ambiguous))

unfoldable pub tags_to_recover : Vdi → String → List String
tags_to_recover vdi volume_id =
    let volume_name = recover_volume_name_from_vdi vdi volume_id in
    build_tag vdi_tag_key_volume_id volume_id
    ∷ (if volume_name == "" then [] else build_tag vdi_tag_key_pv_name volume_name ∷ [])

module _ {S : Type 0} (lib : Library S) where
  unfoldable pub recover_volume_lookup_tags : Vdi → String → Exec S Error (Unit {0})
  unfolding write_tags_to_vdi
  recover_volume_lookup_tags vdi volume_id =
      write_tags_to_vdi lib vdi.id (tags_to_recover vdi volume_id)

  -- A fallback's VDI, returned with its tags written back.
  recovered : String → Vdi → Exec S Error Vdi
  unfolding recover_volume_lookup_tags
  recovered volume_id vdi = do recover_volume_lookup_tags vdi volume_id; pure vdi

  -- The last fallback: the volume ID is the UUID of a static VDI.
  get_vdi_at : String → Option Uuid → Exec S Error Vdi
  unfolding recovered
  get_vdi_at volume_id none = fail (sentinel err_volume_not_found)
  get_vdi_at volume_id (some parsed_uuid) =
      if parsed_uuid == uuid_nil
      then fail (sentinel err_volume_not_found)
      else check (lib.vdi_get parsed_uuid)
          (λ e.
            if is_not_found_error e
            then fail (sentinel err_volume_not_found)
            else fail (wrap (api e)))
          (recovered volume_id)

module _ {S : Type 0} (lib : Library S) (vendor : Vendor) where
  unfoldable pub get_vdi_by_name_label : String → Exec S Error Vdi
  unfolding get_vdi_at
  get_vdi_by_name_label volume_id = do
    vdis ← wrapped (lib.vdi_get_all 2 ("name_label:" <> volume_id))
    only_one (get_vdi_at lib volume_id (vendor.from_string volume_id)) (recovered lib volume_id)
        vdis

  unfoldable pub get_vdi_by_volume_id : String → Exec S Error Vdi
  unfolding get_vdi_by_name_label
  get_vdi_by_volume_id volume_id = do
    vdis ← wrapped (lib.vdi_get_all 2 (build_tag_filter vdi_tag_key_volume_id volume_id))
    only_one (get_vdi_by_name_label volume_id) pure vdis

module _ {S : Type 0} (lib : Library S) where
  unfoldable pub find_vdi_by_volume_name : String → Exec S Error (Vdi × String)
  unfolding the_named_vdi
  find_vdi_by_volume_name volume_name = do
    vdis ← wrapped (lib.vdi_get_all 2 (build_tag_filter vdi_tag_key_pv_name volume_name))
    the_named_vdi vdis
