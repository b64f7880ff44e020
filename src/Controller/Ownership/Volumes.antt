-- ===== src/Controller/Ownership/Volumes.antt =====
-- Creation, deletion and validation keep the IDs of VBDs unique and each VDI at one VM (pkg/xenorchestra-csi/controllerserver.go).
use xenorchestra_csi_driver.Base.{
  String, ◌==◌, nat_eq, string_eq, inl, inr, sym, subst, arith, is_nil,
}
use xenorchestra_csi_driver.Errors.{
  invalid_argument, failed_precondition, errors_is, err_volume_not_found, is_not_found_error,
}
use xenorchestra_csi_driver.Csi.{CreateVolumeRequest, ValidateVolumeCapabilitiesRequest, Driver}
use xenorchestra_csi_driver.Library.{Library, Vendor}
use xenorchestra_csi_driver.World.{View, IsLawful}
use xenorchestra_csi_driver.World.Orderly.{IsOrderly}
use xenorchestra_csi_driver.World.Keeps.{
  Keeps, Keeps-pure, Keeps-fail, Keeps-if, Keeps-of_read, Keeps-check, Keeps-map_err,
}
use xenorchestra_csi_driver.Controller.Publish.Steps.{Of, used-Keeps, lookup-Keeps, refuse_if-Keeps}
use xenorchestra_csi_driver.Controller.Volumes.{
  any_attached, delete_vdi, delete_volume, validate_volume_capabilities_of,
}
use xenorchestra_csi_driver.Controller.Create.{create_volume}
use xenorchestra_csi_driver.Controller.Create.Invariants.{create_volume-Keeps}
use xenorchestra_csi_driver.Controller.Ownership.{IsOwned}
use xenorchestra_csi_driver.Controller.Ownership.Vbds.{IsOwned-keep}

module _ {S : Type 0} {lib : Library S} {vendor : Vendor} {view : View S}
    (lawful : IsLawful lib vendor view) (orderly : IsOrderly lib view) where
  pub delete_volume-IsOwned :
      (volume_id : String) → Keeps (Of lawful IsOwned) (delete_volume lib vendor volume_id)
  unfolding delete_volume delete_vdi
  delete_volume-IsOwned volume_id =
      Keeps-check _ _ _ (refuse_if-Keeps lawful IsOwned (volume_id == "") invalid_argument)
        Keeps-fail
        λ _.
          Keeps-check _ _ _ (lookup-Keeps lawful IsOwned volume_id)
            (λ e.
              Keeps-if (errors_is e err_volume_not_found) _ _ (λ _. Keeps-pure tt)
                (λ _. Keeps-fail _))
            λ vdi.
              Keeps-check _ _ _ (Keeps-map_err _ _ (used-Keeps lawful IsOwned vdi)) Keeps-fail
                λ vbds.
                  Keeps-check _ _ _
                    (refuse_if-Keeps lawful IsOwned (any_attached vbds) failed_precondition)
                    Keeps-fail
                    λ _.
                      Keeps-check _ _ _
                        (record {
                          at = λ s h. elim (orderly.vbds-vdi_delete vdi.id s) [
                            | inl e ↦ subst IsOwned (sym e) (IsOwned-keep _ (view.vbds s) h)
                            | inr e ↦ subst IsOwned (sym e) h
                          ];
                        })
                        (λ e.
                          Keeps-if (is_not_found_error e) _ _ (λ _. Keeps-pure tt)
                            (λ _. Keeps-fail _))
                        (λ _. Keeps-pure tt)

  pub validate_volume_capabilities_of-IsOwned :
      (req : ValidateVolumeCapabilitiesRequest)
      → Keeps (Of lawful IsOwned) (validate_volume_capabilities_of lib vendor req)
  unfolding validate_volume_capabilities_of
  validate_volume_capabilities_of-IsOwned req =
      Keeps-check _ _ _ (refuse_if-Keeps lawful IsOwned (req.volume_id == "") invalid_argument)
        Keeps-fail
        λ _.
          Keeps-check _ _ _
            (refuse_if-Keeps lawful IsOwned (is_nil req.volume_capabilities) invalid_argument)
            Keeps-fail
            λ _.
              Keeps-check _ _ _ (Keeps-map_err _ _ (lookup-Keeps lawful IsOwned req.volume_id))
                Keeps-fail (λ vdi. Keeps-of_read _ (λ s. ground arith))

  pub create_volume-IsOwned :
      (driver : Driver) (req : CreateVolumeRequest)
      → Keeps (Of lawful IsOwned) (create_volume lib vendor driver req)
  create_volume-IsOwned driver req =
      create_volume-Keeps lib vendor driver lawful.reads
        (λ params. record { at = λ s h. subst IsOwned (sym (orderly.vbds-vdi_create params s)) h })
        req
