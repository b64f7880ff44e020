-- ===== src/Controller/Create/Invariants.antt =====
-- `CreateVolume` writes nothing but a new VDI: it keeps what the creation of a VDI keeps
-- (pkg/xenorchestra-csi/controllerserver.go).
use xenorchestra_csi_driver.Base.{String, arith}
use xenorchestra_csi_driver.Payloads.{Pool, StorageRepository, VdiCreateParams}
use xenorchestra_csi_driver.Errors.{errors_is, err_volume_not_found}
use xenorchestra_csi_driver.Csi.{CreateVolumeRequest, Driver}
use xenorchestra_csi_driver.Library.{Library, Vendor}
use xenorchestra_csi_driver.World.{ListsOnly}
use xenorchestra_csi_driver.World.Keeps.{
  Keeps, Keeps-pure, Keeps-fail, Keeps-if, Keeps-of_read, Keeps-check, Keeps-map_err,
  of_result-world,
}
use xenorchestra_csi_driver.XoClient.{create_new_volume, find_vdi_by_volume_name}
use xenorchestra_csi_driver.XoClient.Lookup.{the_named_vdi}
use xenorchestra_csi_driver.Controller.Create.{
  create_guards, new_volume, existing_volume, create_in, create_volume, storage_type_of,
}
use xenorchestra_csi_driver.Controller.Create.Searches.{resolve_pool-Keeps, local_sr_of_pool-Keeps}

module _ {S : Type 0} (lib : Library S) (vendor : Vendor) (driver : Driver) {P : S → Type 0}
    (reads : ListsOnly lib)
    (creating : (params : VdiCreateParams) → Keeps P (lib.vdi_create params)) where
  find-Keeps : (name : String) → Keeps P (find_vdi_by_volume_name lib name)
  unfolding find_vdi_by_volume_name the_named_vdi
  find-Keeps name =
      Keeps-check _ _ _
        (Keeps-map_err _ _ (Keeps-of_read (lib.vdi_get_all 2 _) (reads.vdi_get_all 2 _))) Keeps-fail
        (λ vdis. Keeps-of_read _ (λ s. ground arith))

  new_volume-Keeps :
      (req : CreateVolumeRequest) (pool : Pool) (sr : StorageRepository)
      → Keeps P (new_volume lib vendor driver req pool sr)
  unfolding new_volume create_new_volume
  new_volume-Keeps req pool sr =
      Keeps-check _ _ _
        (Keeps-map_err _ _ (
          Keeps-check _ _ _ (Keeps-map_err _ _ (Keeps-of_read lib.new_v4 reads.new_v4)) Keeps-fail
            (λ id.
              Keeps-check _ _ _ (Keeps-map_err _ _ (creating _)) Keeps-fail
                (λ vdi_id. Keeps-pure (vdi_id, id)))))
        Keeps-fail (λ ids. Keeps-pure _)

  pub create_in-Keeps :
      (req : CreateVolumeRequest) (pool : Pool) (sr : StorageRepository)
      → Keeps P (create_in lib vendor driver req pool sr)
  unfolding create_in existing_volume
  create_in-Keeps req pool sr =
      Keeps-check _ _ _ (find-Keeps req.name)
        (λ e.
          Keeps-if (errors_is e err_volume_not_found) _ _ (λ _. new_volume-Keeps req pool sr)
            (λ _. Keeps-fail _))
        (λ found. Keeps-of_read _ (λ s. ground arith))

  pub create_volume-Keeps :
      (req : CreateVolumeRequest) → Keeps P (create_volume lib vendor driver req)
  unfolding create_volume
  create_volume-Keeps req =
      Keeps-check _ _ _ (Keeps-of_read _ (of_result-world _ (create_guards req))) Keeps-fail λ _.
        Keeps-check _ _ _ (resolve_pool-Keeps lib vendor driver reads req) Keeps-fail λ chosen.
          Keeps-check _ _ _
            (local_sr_of_pool-Keeps lib vendor driver reads (storage_type_of req.parameters)
              chosen.0 chosen.1)
            Keeps-fail (create_in-Keeps req chosen.0)
