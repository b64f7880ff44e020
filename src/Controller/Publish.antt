-- ===== src/Controller/Publish.antt =====
-- `ControllerPublishVolume` and `ControllerUnpublishVolume` of pkg/xenorchestra-csi/controllerserver.go.
pub mod Scan
pub mod Sharing
pub mod Steps
pub mod Exclusive
pub mod Release
pub mod Context
pub mod Published
pub mod Moving
pub mod Outcome
pub mod Released
pub mod Progress
pub mod Success
pub mod Liveness
use xenorchestra_csi_driver.Base.{
  ℕ, not, ◌&&◌, Option, none, some, List, [], ◌∷◌, StringMap, value_at, Result, ok, err, Exec, pure,
  fail, crash, check, map_err, refuse_if, of_result, ◌>>=◌, ◌>>◌, ◌==◌, string_eq, nat_eq,
  if◌then◌else◌, contains,
}
use xenorchestra_csi_driver.Payloads.{Uuid, uuid_nil, Vdi, Vbd, Vm}
use xenorchestra_csi_driver.Errors.{
  Error, Code, invalid_argument, not_found, failed_precondition, internal, errors_is,
  err_volume_not_found, err_vbd_not_found,
}
use xenorchestra_csi_driver.Constants.{storage_type_local, volume_context_key_storage_type}
use xenorchestra_csi_driver.Csi.{
  ControllerPublishVolumeRequest, ControllerUnpublishVolumeRequest, Driver,
}
use xenorchestra_csi_driver.Library.{Library, Vendor}
use xenorchestra_csi_driver.Capabilities.{validate_volume_capability}
use xenorchestra_csi_driver.XoClient.{
  get_vdi_by_volume_id, find_local_sr_for_host, migrate_vdi_and_wait, is_sr_attached_to_host,
  is_vdi_used_anywhere, connect_vbd_to_vm, disconnect_vbd_from_vm, attach_vdi_to_vm,
  wait_for_vdi_to_be_fully_attached,
}

-- `uuid.FromString(req.GetNodeId())`, which must be a UUID and not the nil one.
abbrev pub node_uuid : {S : Type 0} → Option Uuid → Exec S Code Uuid
node_uuid none = fail invalid_argument
node_uuid (some vm_uuid) = if vm_uuid == uuid_nil then fail invalid_argument else pure vm_uuid

abbrev pub publish_context_from_vbd : {S : Type 0} → Vendor → Vbd → Exec S Code StringMap
publish_context_from_vbd vendor vbd = elim vbd.device [
  | none ↦ crash
  | some device ↦ pure (("device", device) ∷ ("vbd", vendor.to_string vbd.id) ∷ [])
]

-- The loop over the VBDs: refuses one that is attached to another VM, and picks the last of this VM.
unfoldable pub vbd_to_attach : Uuid → Option Vbd → List Vbd → Result Code (Option Vbd)
vbd_to_attach vm_uuid picked [] = ok picked
vbd_to_attach vm_uuid picked (vbd ∷ vbds) =
    let go_on = vbd_to_attach vm_uuid (if vbd.vm == vm_uuid then some vbd else picked) vbds in
    if vbd.attached && not (vbd.vm == vm_uuid) then err failed_precondition else go_on

-- What a failed lookup of the volume is reported as.
abbrev pub lookup_failed : Error → Code
lookup_failed e = if errors_is e err_volume_not_found then not_found else internal

module _ {S : Type 0} (lib : Library S) (vendor : Vendor) (driver : Driver) where
  -- The cluster's tag is added to a VDI that lacks it.
  unfoldable pub adopt : Vdi → Exec S Code (Unit {0})
  adopt vdi =
      if not (driver.cluster_tag == "") && not (contains vdi.tags driver.cluster_tag)
      then map_err (λ _. internal) (lib.vdi_add_tag vdi.id driver.cluster_tag)
      else pure tt

  -- Local storage: the VDI moves to the local SR of the VM's host.
  unfoldable pub move_to_host : StringMap → Vm → Vdi → Exec S Code Vdi
  move_to_host volume_context vm vdi =
      if value_at volume_context_key_storage_type volume_context == storage_type_local
      then (do
        local_sr ←
            map_err (λ _. failed_precondition) (find_local_sr_for_host lib vendor vm.container)
        if vdi.sr == local_sr.id then pure vdi else do
          new_vdi_uuid ← map_err (λ _. internal) (migrate_vdi_and_wait lib vdi local_sr.id)
          map_err (λ _. internal) (lib.vdi_get new_vdi_uuid))
      else pure vdi

  module _ (ticks : ℕ) where
    -- The VDI has a VBD on this VM already.
    unfoldable pub publish_vbd : Vbd → Exec S Code StringMap
    publish_vbd vbd =
        if not vbd.attached
        then (do
          connected ← map_err (λ _. internal) (connect_vbd_to_vm lib vbd)
          publish_context_from_vbd vendor connected)
        else (elim vbd.device [
          | some _ ↦ publish_context_from_vbd vendor vbd
          | none ↦ do
            attached ← map_err (λ _. internal) (wait_for_vdi_to_be_fully_attached lib ticks vbd.id)
            publish_context_from_vbd vendor attached
        ])

    unfoldable pub attach_new : Vdi → Uuid → Exec S Code StringMap
    attach_new vdi vm_uuid = do
      vbd ← map_err (λ _. internal) (attach_vdi_to_vm lib ticks vdi vm_uuid)
      publish_context_from_vbd vendor vbd

    -- From the check of the SR on.
    unfoldable pub publish_on_host : Uuid → Vm → Vdi → Exec S Code StringMap
    unfolding vbd_to_attach publish_vbd attach_new
    publish_on_host vm_uuid vm vdi = do
      map_err (λ _. failed_precondition) (is_sr_attached_to_host lib vendor vdi.sr vm.container)
      vbds ← map_err (λ _. internal) (is_vdi_used_anywhere lib vendor vdi)
      picked ← of_result (λ code. code) (vbd_to_attach vm_uuid none vbds)
      elim picked [ some vbd ↦ publish_vbd vbd | none ↦ attach_new vdi vm_uuid ]

    -- From the found VDI on.
    unfoldable pub publish_vdi : StringMap → Uuid → Vdi → Exec S Code StringMap
    unfolding adopt move_to_host publish_on_host
    publish_vdi volume_context vm_uuid vdi = do
      adopt vdi
      vm ← map_err (λ _. not_found) (lib.vm_get_by_id vm_uuid)
      refuse_if (not (vm.pool_id == vdi.pool_id)) failed_precondition
      placed ← move_to_host volume_context vm vdi
      publish_on_host vm_uuid vm placed

    unfoldable pub controller_publish_volume :
        ControllerPublishVolumeRequest → Exec S Code StringMap
    unfolding publish_vdi
    controller_publish_volume req = do
      vm_uuid ← node_uuid (vendor.from_string req.node_id)
      of_result (λ _. invalid_argument) (validate_volume_capability req.volume_capability)
      refuse_if (req.volume_id == "") invalid_argument
      vdi ← map_err lookup_failed (get_vdi_by_volume_id lib vendor req.volume_id)
      publish_vdi req.volume_context vm_uuid vdi

  unfoldable pub controller_unpublish_volume :
      ControllerUnpublishVolumeRequest → Exec S Code (Unit {0})
  controller_unpublish_volume req = do
    vm_uuid ← node_uuid (vendor.from_string req.node_id)
    refuse_if (req.volume_id == "") invalid_argument
    check (get_vdi_by_volume_id lib vendor req.volume_id)
        (λ e. if errors_is e err_volume_not_found then pure tt else fail internal)
        λ vdi.
          check (disconnect_vbd_from_vm lib vendor vdi vm_uuid)
            (λ e. if errors_is e err_vbd_not_found then pure tt else fail internal) (λ _. pure tt)
