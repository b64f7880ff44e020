-- ===== src/Controller/Publish/Outcome.antt =====
-- What `ControllerPublishVolume` promises where it succeeds (pkg/xenorchestra-csi/controllerserver.go).
use xenorchestra_csi_driver.Base.{ℕ, List, StringMap, ok, ◌≡◌, nat_eq, string_eq, option_eq}
use xenorchestra_csi_driver.Payloads.{Uuid, Vdi, Vbd, Vm}
use xenorchestra_csi_driver.Csi.{Driver}
use xenorchestra_csi_driver.Library.{Library, Vendor}
use xenorchestra_csi_driver.World.{View, IsLawful}
use xenorchestra_csi_driver.World.Naming.{IsNaming}
use xenorchestra_csi_driver.World.Keeps.{Keeps}
use xenorchestra_csi_driver.Controller.Publish.{adopt}
use xenorchestra_csi_driver.Controller.Publish.Sharing.{IdsAgree}
use xenorchestra_csi_driver.Controller.Publish.Moving.{IsPlaced}
use xenorchestra_csi_driver.Controller.Publish.Context.{IsPublished}

module _ {S : Type 0} {lib : Library S} {vendor : Vendor} {view : View S}
    (lawful : IsLawful lib vendor view) (naming : IsNaming lib view) (driver : Driver) (ticks : ℕ)
    (l : List Vbd) (agree : IdsAgree l) where
  abbrev Same : List Vbd → Type 0
  Same k = k ≡ l

-- A publication of `vdi` that started in the world `start`, after the lookup, and answered in the world `t`.
pub record IsPublication {S : Type 0} (lib : Library S) (vendor : Vendor) (driver : Driver)
    (view : View S) (context : StringMap) (vm_uuid : Uuid) (vdi : Vdi) (start : S)
    (answer : StringMap) (t : S) : Type 0 where
  pub vm : Vm
  -- The VM is read, and the VDI moved, once the VDI carries the tag of the cluster.
  pub machine : (lib.vm_get_by_id vm_uuid (adopt lib vendor driver vdi start).1).0 ≡ ok vm
  pub placed : Vdi
  pub is_placed :
      IsPlaced lib vendor context vm.container vdi placed (adopt lib vendor driver vdi start).1
  pub published : IsPublished vendor placed.id vm_uuid answer (view.vbds t)
