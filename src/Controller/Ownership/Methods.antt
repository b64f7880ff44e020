-- ===== src/Controller/Ownership/Methods.antt =====
-- Publication and unpublication keep the IDs of VBDs unique and each VDI at one VM, local storage
-- included (pkg/xenorchestra-csi/controllerserver.go).
use xenorchestra_csi_driver.Base.{
  ℕ, not, StringMap, ◌==◌, nat_eq, string_eq, inl, inr, sym, subst, arith,
}
use xenorchestra_csi_driver.Payloads.{Uuid, Vdi, Vm}
use xenorchestra_csi_driver.Errors.{
  invalid_argument, failed_precondition, errors_is, err_volume_not_found, err_vbd_not_found,
}
use xenorchestra_csi_driver.Csi.{
  ControllerPublishVolumeRequest, ControllerUnpublishVolumeRequest, Driver,
}
use xenorchestra_csi_driver.Library.{Library, Vendor}
use xenorchestra_csi_driver.Capabilities.{validate_volume_capability}
use xenorchestra_csi_driver.World.{View, IsLawful}
use xenorchestra_csi_driver.World.Orderly.{IsOrderly}
use xenorchestra_csi_driver.World.Keeps.{
  Keeps, Keeps-pure, Keeps-fail, Keeps-if, Keeps-of_read, Keeps-check, Keeps-map_err,
}
use xenorchestra_csi_driver.XoClient.{get_vbd_from_vdi_and_vm, disconnect_vbd_from_vm}
use xenorchestra_csi_driver.Controller.Publish.{
  move_to_host, publish_vdi, controller_publish_volume, controller_unpublish_volume, lookup_failed,
}
use xenorchestra_csi_driver.Controller.Publish.Moving.{moving-Keeps}
use xenorchestra_csi_driver.Controller.Publish.Steps.{
  Of, wait_task-Keeps, adopt-Keeps, lookup-Keeps, of_result-Keeps, refuse_if-Keeps, node_uuid-Keeps,
}
use xenorchestra_csi_driver.Controller.Ownership.{IsOwned}
use xenorchestra_csi_driver.Controller.Ownership.Vbds.{IsOwned-unplug, IsOwned-move}
use xenorchestra_csi_driver.Controller.Ownership.Calls.{publish_on_host-IsOwned}

module _ {S : Type 0} {lib : Library S} {vendor : Vendor} {view : View S}
    (lawful : IsLawful lib vendor view) (orderly : IsOrderly lib view) (driver : Driver) where
  migrate-Keeps : (id sr : Uuid) → Keeps (Of lawful IsOwned) (lib.vdi_migrate id sr)
  migrate-Keeps id sr = record {
    at = λ s h. elim (orderly.vbds-vdi_migrate id sr s) [
      | inl (new, move, moved, unused, e, still) ↦
          subst IsOwned (sym e) (IsOwned-move id new move moved (view.vbds s) unused still h)
      | inr e ↦ subst IsOwned (sym e) h
    ];
  }

  move_to_host-IsOwned :
      (context : StringMap) (vm : Vm) (vdi : Vdi)
      → Keeps (Of lawful IsOwned) (move_to_host lib vendor driver context vm vdi)
  move_to_host-IsOwned = moving-Keeps lawful IsOwned driver migrate-Keeps

  publish_vdi-IsOwned :
      (ticks : ℕ) (context : StringMap) (vm_uuid : Uuid) (vdi : Vdi)
      → Keeps (Of lawful IsOwned) (publish_vdi lib vendor driver ticks context vm_uuid vdi)
  unfolding publish_vdi
  publish_vdi-IsOwned ticks context vm_uuid vdi =
      Keeps-check _ _ _ (adopt-Keeps lawful IsOwned driver vdi) Keeps-fail λ _.
        Keeps-check _ _ _
          (Keeps-map_err _ _
            (Keeps-of_read (lib.vm_get_by_id vm_uuid) (lawful.reads.vm_get_by_id vm_uuid)))
          Keeps-fail
          λ vm.
            Keeps-check _ _ _
              (refuse_if-Keeps lawful IsOwned (not (vm.pool_id == vdi.pool_id)) failed_precondition)
              Keeps-fail
              λ _.
                Keeps-check _ _ _ (move_to_host-IsOwned context vm vdi) Keeps-fail
                  (publish_on_host-IsOwned lawful orderly driver ticks vm_uuid vm)

  pub controller_publish_volume-IsOwned :
      (ticks : ℕ) (req : ControllerPublishVolumeRequest)
      → Keeps (Of lawful IsOwned) (controller_publish_volume lib vendor driver ticks req)
  unfolding controller_publish_volume
  controller_publish_volume-IsOwned ticks req =
      Keeps-check _ _ _ (node_uuid-Keeps lawful IsOwned (vendor.from_string req.node_id)) Keeps-fail
        λ vm_uuid.
          Keeps-check _ _ _
            (of_result-Keeps lawful IsOwned _ (validate_volume_capability req.volume_capability))
            Keeps-fail
            λ _.
              Keeps-check _ _ _
                (refuse_if-Keeps lawful IsOwned (req.volume_id == "") invalid_argument) Keeps-fail
                λ _.
                  Keeps-check _ _ _
                    (Keeps-map_err lookup_failed _ (lookup-Keeps lawful IsOwned req.volume_id))
                    Keeps-fail (publish_vdi-IsOwned ticks req.volume_context vm_uuid)

  disconnect-IsOwned :
      (vdi : Vdi) (vm : Uuid) → Keeps (Of lawful IsOwned) (disconnect_vbd_from_vm lib vendor vdi vm)
  unfolding disconnect_vbd_from_vm get_vbd_from_vdi_and_vm
  disconnect-IsOwned vdi vm =
      Keeps-check _ _ _
        (Keeps-check _ _ _
          (Keeps-map_err _ _ (Keeps-of_read (lib.vbd_get_all 0 _) (lawful.reads.vbd_get_all 0 _)))
          Keeps-fail (λ vbds. Keeps-of_read _ (λ s. ground arith)))
        Keeps-fail
        λ vbd.
          Keeps-check _ _ _
            (Keeps-map_err _ _ (record {
              at = λ s h. elim (lawful.vbds-disconnect vbd.id s) [
                | inl e ↦ subst IsOwned (sym e) (IsOwned-unplug vbd.id (view.vbds s) h)
                | inr e ↦ subst IsOwned (sym e) h
              ];
            }))
            Keeps-fail
            λ task_id.
              Keeps-check _ _ _ (wait_task-Keeps lawful IsOwned task_id) Keeps-fail
                (λ _. Keeps-pure tt)

  pub controller_unpublish_volume-IsOwned :
      (req : ControllerUnpublishVolumeRequest)
      → Keeps (Of lawful IsOwned) (controller_unpublish_volume lib vendor driver req)
  unfolding controller_unpublish_volume
  controller_unpublish_volume-IsOwned req =
      Keeps-check _ _ _ (node_uuid-Keeps lawful IsOwned (vendor.from_string req.node_id)) Keeps-fail
        λ vm_uuid.
          Keeps-check _ _ _ (refuse_if-Keeps lawful IsOwned (req.volume_id == "") invalid_argument)
            Keeps-fail
            λ _.
              Keeps-check _ _ _ (lookup-Keeps lawful IsOwned req.volume_id)
                (λ e.
                  Keeps-if (errors_is e err_volume_not_found) _ _ (λ _. Keeps-pure tt)
                    (λ _. Keeps-fail _))
                λ vdi.
                  Keeps-check _ _ _ (disconnect-IsOwned vdi vm_uuid)
                    (λ e.
                      Keeps-if (errors_is e err_vbd_not_found) _ _ (λ _. Keeps-pure tt)
                        (λ _. Keeps-fail _))
                    (λ _. Keeps-pure tt)
