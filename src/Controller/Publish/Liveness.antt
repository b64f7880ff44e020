-- ===== src/Controller/Publish/Liveness.antt =====
-- `ControllerPublishVolume` succeeds where Xen Orchestra does what it is asked for
-- (pkg/xenorchestra-csi/controllerserver.go).
use xenorchestra_csi_driver.Base.{
  true, false, some, any, value_at, ok, ◌≡◌, ◌≢◌, ◌==◌, nat_eq, string_eq, option_eq,
}
use xenorchestra_csi_driver.Payloads.{Uuid, uuid_nil, Vdi, Vm}
use xenorchestra_csi_driver.Constants.{storage_type_local, volume_context_key_storage_type}
use xenorchestra_csi_driver.Csi.{ControllerPublishVolumeRequest}
use xenorchestra_csi_driver.Library.{Library, Vendor}
use xenorchestra_csi_driver.Capabilities.{validate_volume_capability}
use xenorchestra_csi_driver.World.{View}
use xenorchestra_csi_driver.World.Returns.{Returns}
use xenorchestra_csi_driver.XoClient.{get_vdi_by_volume_id}
use xenorchestra_csi_driver.Controller.Publish.Sharing.{is_astray}
use xenorchestra_csi_driver.Controller.Publish.Progress.{IsPrompt}
use xenorchestra_csi_driver.Controller.Publish.Success.{is_detached}

-- A request for a volume on storage that is not local, which the driver can serve: it names a VM of the
-- pool of the volume's VDI, and the VDI is attached to no other VM.
pub record IsServable {S : Type 0} (lib : Library S) (vendor : Vendor) (view : View S)
    (req : ControllerPublishVolumeRequest) (s : S) : Type 0 where
  pub vm : Vm
  pub vm_uuid : Uuid
  pub vdi : Vdi
  pub named : vendor.from_string req.node_id ≡ some vm_uuid
  pub real : vm_uuid ≢ uuid_nil
  pub able : validate_volume_capability req.volume_capability ≡ ok tt
  pub given : req.volume_id ≢ ""
  pub found : (get_vdi_by_volume_id lib vendor req.volume_id s).0 ≡ ok vdi
  -- The VM is there, whatever the call changes.
  pub machine : (t : S) → (lib.vm_get_by_id vm_uuid t).0 ≡ ok vm
  pub same_pool : vm.pool_id ≡ vdi.pool_id
  pub shared :
      (value_at volume_context_key_storage_type req.volume_context == storage_type_local) ≡ false
  pub free : any (is_astray vdi.id vm_uuid) (view.vbds s) ≡ false
  -- A VBD of the VDI that is not attached would be connected, and the code then reads its device's name
  -- without a test: without that name at once it panics.
  pub prompt : any (is_detached vdi.id) (view.vbds s) ≡ true → IsPrompt lib view
