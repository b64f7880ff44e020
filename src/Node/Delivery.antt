-- ===== src/Node/Delivery.antt =====
-- From the publication of a volume by the controller to its staging on the node.
use xenorchestra_csi_driver.Base.{String, some, List, [], ◌∷◌, ◌++◌, ◌≡◌, string_eq, ◌<>◌}
use mathlib.Core.List.{Memᴰ}
use xenorchestra_csi_driver.Payloads.{Uuid, Vdi, Vbd}
use xenorchestra_csi_driver.Library.{Library}
use xenorchestra_csi_driver.Mounter.{Mounter}
use xenorchestra_csi_driver.Mounter.Table.{MountPoint}

-- A VBD joins the VDI and the VM, and its device was mounted at the path, after the other mounts.
pub record IsDelivered (vdi : Vdi) (vm : Uuid) (path : String) (vbds : List Vbd)
    (before after : List MountPoint) : Type 0 where
  pub vbd : Vbd
  pub device : String
  pub present : Memᴰ vbd vbds
  pub of_vm : vbd.vm ≡ vm
  pub of_vdi : vbd.vdi ≡ some vdi.id
  pub has_device : vbd.device ≡ some device
  pub mounted : after ≡ before ++ record { device = "/dev/" <> device; path = path } ∷ []
