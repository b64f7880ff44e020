-- ===== src/XoClient/Storage.antt =====
-- Storage repositories, new volumes and migration (pkg/xenorchestra-csi/clients/xoclient.go).
pub mod NewTags
pub mod Reads
pub mod Migration
pub mod Tagged
use xenorchestra_csi_driver.Base.{
  String, Option, none, some, List, [], ◌∷◌, ◌++◌, Exec, pure, fail, check, map_err, ◌>>=◌, ◌>>◌,
  ◌==◌, string_eq, nat_eq, char_eq, if◌then◌else◌, ◌<>◌, has_prefix,
}
use xenorchestra_csi_driver.Payloads.{
  Uuid, uuid_nil, ℤ, Vdi, StorageRepository, Task, success, unfinished_or_failed,
}
use xenorchestra_csi_driver.Errors.{Error, api, wrap, message}
use xenorchestra_csi_driver.Library.{Library, Vendor}
use xenorchestra_csi_driver.Tags.{
  build_tag, build_vdi_name_label, build_vdi_name_description, vdi_tag_key_volume_id,
  vdi_tag_key_pv_name, vdi_tag_key_managed_by, tag_prefix,
}
use xenorchestra_csi_driver.XoClient.Calls.{wrapped}

-- `writeTagsToVDI`: the tags of the driver are added, the others are left out, errors are ignored.
unfoldable pub write_tags_to_vdi :
    {S : Type 0} → Library S → Uuid → List String → Exec S Error (Unit {0})
unfolding char_eq
write_tags_to_vdi lib vdi_id [] = pure tt
write_tags_to_vdi lib vdi_id (tag ∷ tags) =
    let rest = write_tags_to_vdi lib vdi_id tags in
    if has_prefix tag (tag_prefix <> ":")
    then check (lib.vdi_add_tag vdi_id tag) (λ _. rest) (λ _. rest)
    else rest

-- The tags of a new volume.
unfoldable pub new_volume_tags : String → String → String → String → List String
unfolding build_tag
new_volume_tags volume_id volume_name managed_by cluster_tag =
    let tags =
      build_tag vdi_tag_key_volume_id volume_id
      ∷ build_tag vdi_tag_key_pv_name volume_name
      ∷ build_tag vdi_tag_key_managed_by managed_by
      ∷ [] in
    if cluster_tag == "" then tags else tags ++ cluster_tag ∷ []

module _ {S : Type 0} (lib : Library S) (vendor : Vendor) where
  unfoldable pub is_sr_attached_to_host : Uuid → Uuid → Exec S Error (Unit {0})
  is_sr_attached_to_host sr_id host_id = do
    pbds ← wrapped (
        lib.pbd_get_all 1
          ("SR:" <> vendor.to_string sr_id <> " host:" <> vendor.to_string host_id <> " attached?"))
    elim pbds [ [] ↦ fail message | _ ∷ _ ↦ pure tt ]

  -- The VDI of a VBD, which may be missing, against the host of the VBD's VM.
  unfoldable pub is_sr_of_vdi_attached_to_vm_host : Uuid → Option Uuid → Exec S Error (Unit {0})
  unfolding is_sr_attached_to_host
  is_sr_of_vdi_attached_to_vm_host vm_uuid none = fail message
  is_sr_of_vdi_attached_to_vm_host vm_uuid (some vdi_id) = do
    vm ← wrapped (lib.vm_get_by_id vm_uuid)
    vdi ← wrapped (lib.vdi_get vdi_id)
    is_sr_attached_to_host vdi.sr vm.container

  unfoldable pub is_sr_attached_to_vm_host : Uuid → Exec S Error (Unit {0})
  unfolding is_sr_of_vdi_attached_to_vm_host
  is_sr_attached_to_vm_host vbd_id = do
    vbd ← wrapped (lib.vbd_get vbd_id)
    is_sr_of_vdi_attached_to_vm_host vbd.vm vbd.vdi

  unfoldable pub find_local_sr_for_host : Uuid → Exec S Error StorageRepository
  find_local_sr_for_host host_id = do
    srs ← wrapped (
        lib.sr_get_all 1 (
          "content_type:user !shared? !inMaintenanceMode? $PBDs:length:>=1 $container:"
          <> vendor.to_string host_id))
    elim srs [ [] ↦ fail message | sr ∷ _ ↦ pure sr ]

  unfoldable pub find_local_srs_for_pool : Uuid → Exec S Error (List StorageRepository)
  find_local_srs_for_pool pool_id = do
    srs ← wrapped (
        lib.sr_get_all 0 (
          "content_type:user !shared? !inMaintenanceMode? $PBDs:length:>=1 $pool:"
          <> vendor.to_string pool_id))
    elim srs [ [] ↦ fail message | sr ∷ others ↦ pure (sr ∷ others) ]

  unfoldable pub create_new_volume :
      Uuid → String → ℤ → String → String → String → Exec S Error (Uuid × Uuid)
  unfolding build_vdi_name_label build_vdi_name_description
  create_new_volume sr_id name_prefix capacity_bytes volume_name managed_by cluster_tag = do
    volume_id ← wrapped lib.new_v4
    vdi_id ← wrapped (
        lib.vdi_create (record {
          sr_id = sr_id;
          name_label = build_vdi_name_label name_prefix (vendor.to_string volume_id) volume_name;
          virtual_size = capacity_bytes;
          name_description = build_vdi_name_description volume_name;
          tags = new_volume_tags (vendor.to_string volume_id) volume_name managed_by cluster_tag;
        }))
    pure (vdi_id, volume_id)

-- What a finished migration task says.
pub migrated : {S : Type 0} → Task → Exec S Error Uuid
migrated task = elim task.status [
  | unfinished_or_failed ↦ fail message
  | success ↦ if task.result_id == uuid_nil then fail message else pure task.result_id
]

module _ {S : Type 0} (lib : Library S) where
  unfoldable pub migrate_vdi_and_wait : Vdi → Uuid → Exec S Error Uuid
  unfolding write_tags_to_vdi migrated
  migrate_vdi_and_wait vdi target_sr_id = do
    task_id ← wrapped (lib.vdi_migrate vdi.id target_sr_id)
    task ← map_err (λ e. wrap (api e.text)) (lib.task_wait task_id)
    new_vdi_id ← migrated task
    write_tags_to_vdi lib new_vdi_id vdi.tags
    pure new_vdi_id
