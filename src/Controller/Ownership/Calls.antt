-- ===== src/Controller/Ownership/Calls.antt =====
-- From the check of the SR on, a publication keeps the IDs of VBDs unique and each VDI at one VM
-- (pkg/xenorchestra-csi/controllerserver.go).
use xenorchestra_csi_driver.Base.{
  ℕ, String, not, Option, none, some, refl, nat_eq, string_eq, inl, inr, sym, subst, map_err, ◌>>=◌,
}
use xenorchestra_csi_driver.Payloads.{Uuid, Vdi, Vbd, Vm}
use xenorchestra_csi_driver.Errors.{api, internal}
use xenorchestra_csi_driver.Csi.{Driver}
use xenorchestra_csi_driver.Library.{Library, Vendor}
use xenorchestra_csi_driver.World.{View, IsLawful}
use xenorchestra_csi_driver.World.Orderly.{IsOrderly, IdsAgree}
use xenorchestra_csi_driver.World.Keeps.{Keeps, Keeps-fail, Keeps-if, Keeps-check, Keeps-map_err}
use xenorchestra_csi_driver.XoClient.{
  connect_vbd_to_vm, attach_vdi_to_vm, wait_for_vdi_to_be_fully_attached,
}
use xenorchestra_csi_driver.Controller.Publish.{
  publish_context_from_vbd, vbd_to_attach, publish_vbd, attach_new, publish_on_host,
}
use xenorchestra_csi_driver.Controller.Publish.Steps.{
  Of, context-Keeps, vbd_get-Keeps, wait-Keeps, wait_task-Keeps, sr-Keeps, used-Keeps,
  of_result-Keeps,
}
use xenorchestra_csi_driver.Controller.Publish.Exclusive.{publish_on_host-Leads}
use xenorchestra_csi_driver.Controller.Ownership.{IsOwned}
use xenorchestra_csi_driver.Controller.Ownership.Vbds.{IdsAgree-plug, IdsAgree-append}

module _ {S : Type 0} {lib : Library S} {vendor : Vendor} {view : View S}
    (lawful : IsLawful lib vendor view) (orderly : IsOrderly lib view) (driver : Driver)
    (ticks : ℕ) where
  -- The IDs stay unique through whatever a publication does to VBDs.
  connect-Keeps : (vbd : Vbd) → Keeps (Of lawful IdsAgree) (connect_vbd_to_vm lib vbd)
  unfolding connect_vbd_to_vm
  connect-Keeps vbd =
      Keeps-check _ _ _
        (Keeps-map_err api (lib.vbd_connect vbd.id) (record {
          at = λ s h. elim (lawful.vbds-connect vbd.id s) [
            | inl e ↦ subst IdsAgree (sym e) (IdsAgree-plug vbd.id (view.vbds s) h)
            | inr e ↦ subst IdsAgree (sym e) h
          ];
        }))
        Keeps-fail
        (λ task_id.
          Keeps-check _ _ _ (wait_task-Keeps lawful IdsAgree task_id) Keeps-fail
            (λ _. Keeps-map_err _ _ (vbd_get-Keeps lawful IdsAgree vbd.id)))

  attach-Keeps :
      (vdi : Vdi) (vm : Uuid) → Keeps (Of lawful IdsAgree) (attach_vdi_to_vm lib ticks vdi vm)
  unfolding attach_vdi_to_vm
  attach-Keeps vdi vm =
      Keeps-check _ _ _
        (Keeps-map_err api (lib.vbd_create (record { vm = vm; vdi = vdi.id })) (record {
          at = λ s h. elim (orderly.vbds-vbd_create (record { vm = vm; vdi = vdi.id }) s) [
            | inl (new, apart, e) ↦
                subst IdsAgree (sym e) (IdsAgree-append (view.vbds s) new apart h)
            | inr e ↦ subst IdsAgree (sym e) h
          ];
        }))
        Keeps-fail (wait-Keeps lawful IdsAgree ticks)

  device-Keeps :
      (vbd : Vbd) (device : Option String)
      → Keeps (Of lawful IdsAgree) (elim device [
        | some _ ↦ publish_context_from_vbd vendor vbd
        | none ↦ do
          attached ← map_err (λ _. internal) (wait_for_vdi_to_be_fully_attached lib ticks vbd.id)
          publish_context_from_vbd vendor attached
      ])
  device-Keeps vbd (some device) = context-Keeps lawful IdsAgree vbd
  device-Keeps vbd none =
      Keeps-check _ _ _ (Keeps-map_err _ _ (wait-Keeps lawful IdsAgree ticks vbd.id)) Keeps-fail
        (context-Keeps lawful IdsAgree)

  choice-Keeps :
      (vdi : Vdi) (vm : Uuid) (picked : Option Vbd)
      → Keeps (Of lawful IdsAgree) (elim picked [
        | some vbd ↦ publish_vbd lib vendor driver ticks vbd
        | none ↦ attach_new lib vendor driver ticks vdi vm
      ])
  unfolding publish_vbd attach_new
  choice-Keeps vdi vm (some vbd) =
      Keeps-if (not vbd.attached) _ _
        (λ _.
          Keeps-check _ _ _ (Keeps-map_err _ _ (connect-Keeps vbd)) Keeps-fail
            (context-Keeps lawful IdsAgree))
        (λ _. device-Keeps vbd vbd.device)
  choice-Keeps vdi vm none =
      Keeps-check _ _ _ (Keeps-map_err _ _ (attach-Keeps vdi vm)) Keeps-fail
        (context-Keeps lawful IdsAgree)

  publish_on_host-Keeps :
      (vm_uuid : Uuid) (vm : Vm) (vdi : Vdi)
      → Keeps (Of lawful IdsAgree) (publish_on_host lib vendor driver ticks vm_uuid vm vdi)
  unfolding publish_on_host
  publish_on_host-Keeps vm_uuid vm vdi =
      Keeps-check _ _ _ (Keeps-map_err _ _ (sr-Keeps lawful IdsAgree vdi.sr vm.container))
        Keeps-fail
        λ _.
          Keeps-check _ _ _ (Keeps-map_err _ _ (used-Keeps lawful IdsAgree vdi)) Keeps-fail λ vbds.
            Keeps-check _ _ _ (of_result-Keeps lawful IdsAgree _ (vbd_to_attach vm_uuid none vbds))
              Keeps-fail (choice-Keeps vdi vm_uuid)

  pub publish_on_host-IsOwned :
      (vm_uuid : Uuid) (vm : Vm) (vdi : Vdi)
      → Keeps (Of lawful IsOwned) (publish_on_host lib vendor driver ticks vm_uuid vm vdi)
  publish_on_host-IsOwned vm_uuid vm vdi = record {
    at = λ s h. (
      (publish_on_host-Keeps vm_uuid vm vdi).at s h.0,
      λ v.
          (publish_on_host-Leads lawful v (view.vbds s) (h.1 v) driver h.0 ticks vm_uuid vm vdi).to
            s refl,
    );
  }
