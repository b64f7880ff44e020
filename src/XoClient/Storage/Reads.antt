-- ===== src/XoClient/Storage/Reads.antt =====
-- The checks of an SR's hosts only read.
use xenorchestra_csi_driver.Base.{Option, none, some, arith}
use xenorchestra_csi_driver.Payloads.{Uuid}
use xenorchestra_csi_driver.Library.{Library, Vendor}
use xenorchestra_csi_driver.World.{ListsOnly, ReadsOnly}
use xenorchestra_csi_driver.World.Keeps.{
  Keeps, Keeps-fail, Keeps-of_read, Keeps-check, Keeps-map_err,
}
use xenorchestra_csi_driver.XoClient.Storage.{
  is_sr_attached_to_host, is_sr_of_vdi_attached_to_vm_host, is_sr_attached_to_vm_host,
}

module _ {S : Type 0} {lib : Library S} (reads : ListsOnly lib) (vendor : Vendor)
    {P : S → Type 0} where
  pub is_sr_attached_to_host-Keeps :
      (sr host : Uuid) → Keeps P (is_sr_attached_to_host lib vendor sr host)
  unfolding is_sr_attached_to_host
  is_sr_attached_to_host-Keeps sr host =
      Keeps-check _ _ _
        (Keeps-map_err _ _ (Keeps-of_read (lib.pbd_get_all 1 _) (reads.pbd_get_all 1 _))) Keeps-fail
        (λ pbds. Keeps-of_read _ (λ s. ground arith))

  of_vdi-Keeps :
      (vm : Uuid) (o : Option Uuid) → Keeps P (is_sr_of_vdi_attached_to_vm_host lib vendor vm o)
  unfolding is_sr_of_vdi_attached_to_vm_host
  of_vdi-Keeps vm none = Keeps-fail _
  of_vdi-Keeps vm (some vdi_id) =
      Keeps-check _ _ _
        (Keeps-map_err _ _ (Keeps-of_read (lib.vm_get_by_id vm) (reads.vm_get_by_id vm))) Keeps-fail
        (λ found.
          Keeps-check _ _ _
            (Keeps-map_err _ _ (Keeps-of_read (lib.vdi_get vdi_id) (reads.vdi_get vdi_id)))
            Keeps-fail (λ vdi. is_sr_attached_to_host-Keeps vdi.sr found.container))

module _ {S : Type 0} {lib : Library S} (reads : ReadsOnly lib) (vendor : Vendor)
    {P : S → Type 0} where
  pub is_sr_attached_to_vm_host-Keeps :
      (vbd_id : Uuid) → Keeps P (is_sr_attached_to_vm_host lib vendor vbd_id)
  unfolding is_sr_attached_to_vm_host
  is_sr_attached_to_vm_host-Keeps vbd_id =
      Keeps-check _ _ _
        (Keeps-map_err _ _ (Keeps-of_read (lib.vbd_get vbd_id) (reads.vbd_get vbd_id))) Keeps-fail
        (λ vbd. of_vdi-Keeps reads.lists vendor vbd.vm vbd.vdi)
