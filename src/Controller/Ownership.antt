-- ===== src/Controller/Ownership.antt =====
-- The calls of the controller service one after another (pkg/xenorchestra-csi/controllerserver.go).
pub mod Vbds
pub mod Calls
pub mod Methods
pub mod Volumes
pub mod Traces
use xenorchestra_csi_driver.Base.{ℕ, String, List, ◌≡◌}
use xenorchestra_csi_driver.Payloads.{Uuid, Vbd}
use xenorchestra_csi_driver.Csi.{
  ControllerPublishVolumeRequest, ControllerUnpublishVolumeRequest, CreateVolumeRequest,
  ValidateVolumeCapabilitiesRequest, Driver,
}
use xenorchestra_csi_driver.Library.{Library, Vendor}
use xenorchestra_csi_driver.World.Orderly.{IdsAgree}
use xenorchestra_csi_driver.Controller.Publish.{
  controller_publish_volume, controller_unpublish_volume,
}
use xenorchestra_csi_driver.Controller.Publish.Sharing.{IsExclusive}
use xenorchestra_csi_driver.Controller.Create.{create_volume}
use xenorchestra_csi_driver.Controller.Volumes.{delete_volume, validate_volume_capabilities_of}

-- IDs of VBDs are unique, and no VDI is attached to two VMs.
abbrev pub IsOwned : List Vbd → Type 0
IsOwned vbds = IdsAgree vbds × ((v : Uuid) → IsExclusive v vbds)

module _ {S : Type 0} (lib : Library S) (vendor : Vendor) (driver : Driver) (ticks : ℕ) where
  -- A call of the controller service, whatever it returns.
  pub data Step (s : S) (t : S) : Type 0 where
    create : (req : CreateVolumeRequest) → t ≡ (create_volume lib vendor driver req s).1 → Step s t
    delete : (volume_id : String) → t ≡ (delete_volume lib vendor volume_id s).1 → Step s t
    publish :
        (req : ControllerPublishVolumeRequest)
        → t ≡ (controller_publish_volume lib vendor driver ticks req s).1
        → Step s t
    unpublish :
        (req : ControllerUnpublishVolumeRequest)
        → t ≡ (controller_unpublish_volume lib vendor driver req s).1
        → Step s t
    validate :
        (req : ValidateVolumeCapabilitiesRequest)
        → t ≡ (validate_volume_capabilities_of lib vendor req s).1
        → Step s t

  pub data Reach (s : S) : S → Type 0 where
    here : Reach s s
    next : {t u : S} → Reach s t → Step t u → Reach s u
