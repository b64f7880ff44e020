-- ===== src/Controller/Volumes.antt =====
-- The other methods of pkg/xenorchestra-csi/controllerserver.go.
pub mod Deletion
use xenorchestra_csi_driver.Base.{
  String, Bool, Option, List, [], ◌∷◌, StringMap, ok, err, panic, Exec, pure, fail, crash, check,
  map_err, refuse_if, ◌>>=◌, ◌>>◌, ◌==◌, string_eq, nat_eq, if◌then◌else◌, is_nil, any,
}
use xenorchestra_csi_driver.Payloads.{Vdi, Vbd}
use xenorchestra_csi_driver.Errors.{
  Code, invalid_argument, not_found, failed_precondition, unimplemented, internal, errors_is,
  err_volume_not_found, is_not_found_error,
}
use xenorchestra_csi_driver.Csi.{VolumeCapability, ValidateVolumeCapabilitiesRequest}
use xenorchestra_csi_driver.Library.{Library, Vendor}
use xenorchestra_csi_driver.Capabilities.{CapabilityError, validate_volume_capabilities}
use xenorchestra_csi_driver.XoClient.{get_vdi_by_volume_id, is_vdi_used_anywhere}

-- `if vbd.Attached { return ... }` over the VBDs.
abbrev pub any_attached : List Vbd → Bool
any_attached = any (λ vbd. vbd.attached)

-- What `ValidateVolumeCapabilities` answers.
pub data Validation : Type 0 where
  confirmed : StringMap → List (Option VolumeCapability) → StringMap → Validation
  refused : CapabilityError → Validation

module _ {S : Type 0} (lib : Library S) (vendor : Vendor) where
  unfoldable pub delete_vdi : Vdi → Exec S Code (Unit {0})
  delete_vdi vdi = do
    vbds ← map_err (λ _. internal) (is_vdi_used_anywhere lib vendor vdi)
    refuse_if (any_attached vbds) failed_precondition
    check (lib.vdi_delete vdi.id) (λ e. if is_not_found_error e then pure tt else fail internal)
        (λ _. pure tt)

  -- `DeleteVolume`, with the volume ID of its request.
  unfoldable pub delete_volume : String → Exec S Code (Unit {0})
  unfolding delete_vdi
  delete_volume volume_id = do
    refuse_if (volume_id == "") invalid_argument
    check (get_vdi_by_volume_id lib vendor volume_id)
        (λ e. if errors_is e err_volume_not_found then pure tt else fail internal)
        (λ vdi. delete_vdi vdi)

  unfoldable pub validate_volume_capabilities_of :
      ValidateVolumeCapabilitiesRequest → Exec S Code Validation
  validate_volume_capabilities_of req = do
    refuse_if (req.volume_id == "") invalid_argument
    refuse_if (is_nil req.volume_capabilities) invalid_argument
    map_err (λ e. if errors_is e err_volume_not_found then not_found else internal)
        (get_vdi_by_volume_id lib vendor req.volume_id)
    elim (validate_volume_capabilities req.volume_capabilities) [
      | ok _ ↦ pure (confirmed req.volume_context req.volume_capabilities req.parameters)
      | err e ↦ pure (refused e)
      | panic ↦ crash
    ]

-- The methods that are not implemented.
pub data Unsupported : Type 0 where
  controller_expand_volume controller_get_volume controller_modify_volume : Unsupported
  create_snapshot delete_snapshot get_capacity list_snapshots list_volumes : Unsupported
  node_get_volume_stats node_expand_volume : Unsupported

unfoldable pub call_unsupported : {S A : Type 0} → Unsupported → Exec S Code A
call_unsupported method = fail unimplemented

pub data ControllerCapability : Type 0 where
  create_delete_volume publish_unpublish_volume get_volume : ControllerCapability

unfoldable pub controller_get_capabilities : List ControllerCapability
controller_get_capabilities = create_delete_volume ∷ publish_unpublish_volume ∷ get_volume ∷ []
