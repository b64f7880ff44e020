-- ===== src/Controller/Publish/Exclusive.antt =====
-- `ControllerPublishVolume` gives no VDI to a second VM (pkg/xenorchestra-csi/controllerserver.go).
use xenorchestra_csi_driver.Base.{
  ℕ, String, false, not, Option, none, some, List, [], ◌∷◌, ◌++◌, map, any, keep, ◌>>=◌, map_err,
  ◌≡◌, refl, ◌==◌, nat_eq, string_eq, ◌∙◌, inl, inr, ok, sym, subst, ap, StringMap, value_at,
}
use xenorchestra_csi_driver.Payloads.{Uuid, Vdi, Vbd, Vm}
use xenorchestra_csi_driver.Errors.{api, internal, failed_precondition, invalid_argument}
use xenorchestra_csi_driver.Library.{Library, Vendor}
use xenorchestra_csi_driver.Csi.{ControllerPublishVolumeRequest, Driver}
use xenorchestra_csi_driver.Constants.{volume_context_key_storage_type, storage_type_local}
use xenorchestra_csi_driver.Capabilities.{validate_volume_capability}
use xenorchestra_csi_driver.World.{View, IsLawful, is_of_vdi, plug}
use xenorchestra_csi_driver.World.Keeps.{
  Keeps, Keeps-fail, Keeps-of_read, Keeps-check, Keeps-map_err, map_err-eq_ok,
}
use xenorchestra_csi_driver.World.Leads.{
  Leads, Leads-map_err, Leads-after, Leads-before, Leads-if, Leads-Keeps,
}
use xenorchestra_csi_driver.XoClient.{
  is_vdi_used_anywhere, connect_vbd_to_vm, attach_vdi_to_vm, wait_for_vdi_to_be_fully_attached,
}
use xenorchestra_csi_driver.Controller.Publish.{
  vbd_to_attach, publish_vbd, attach_new, publish_on_host, publish_vdi, controller_publish_volume,
  publish_context_from_vbd, lookup_failed,
}
use xenorchestra_csi_driver.Controller.Publish.Sharing.{
  is_astray, IsExclusive, Agree, IdsAgree, Joins, Picked, IsExclusive-append, IsExclusive-plug,
  vbd_to_attach-Picked,
}
use xenorchestra_csi_driver.Controller.Publish.Steps.{
  context-Keeps, vbd_get-Keeps, wait-Keeps, wait_task-Keeps, adopt-Keeps, sr-Keeps, used-Keeps,
  lookup-Keeps, of_result-Keeps, refuse_if-Keeps, node_uuid-Keeps, move_to_host-Keeps,
  of_result-eq_ok,
}

module _ {S : Type 0} {lib : Library S} {vendor : Vendor} {view : View S}
    (lawful : IsLawful lib vendor view) (v : Uuid) (l : List Vbd)
    (exclusive : IsExclusive v l) where
  abbrev Before : S → Type 0
  Before s = view.vbds s ≡ l

  abbrev After : S → Type 0
  After s = IsExclusive v (view.vbds s)

  weaken : (s : S) → Before s → After s
  weaken s h = subst (IsExclusive v) (sym h) exclusive

  module _ (driver : Driver) (d vm : Uuid) (free : any (is_astray d vm) l ≡ false) where
    connect-Leads :
        (vbd : Vbd) → Joins d vm vbd → Agree vbd l → Leads Before After (connect_vbd_to_vm lib vbd)
    unfolding connect_vbd_to_vm
    connect-Leads vbd joins agree =
        Leads-before _ _
          (Leads-map_err api (lib.vbd_connect vbd.id) (record {
            to = λ s h. elim (lawful.vbds-connect vbd.id s) [
              | inl e ↦
                  subst (IsExclusive v) (sym (e ∙ ap (map (plug vbd.id)) h))
                    (IsExclusive-plug v d vm l vbd exclusive free joins agree)
              | inr e ↦ subst (IsExclusive v) (sym (e ∙ h)) exclusive
            ];
          }))
          (λ task_id.
            Keeps-check _ _ _ (wait_task-Keeps lawful (IsExclusive v) task_id) Keeps-fail
              (λ _. Keeps-map_err _ _ (vbd_get-Keeps lawful (IsExclusive v) vbd.id)))

    attach-Leads :
        (ticks : ℕ) (vdi : Vdi)
        → vdi.id ≡ d
        → Leads Before After (attach_vdi_to_vm lib ticks vdi vm)
    unfolding attach_vdi_to_vm
    attach-Leads ticks vdi same =
        Leads-before _ _
          (Leads-map_err api (lib.vbd_create (record { vm = vm; vdi = vdi.id })) (record {
            to = λ s h. elim (lawful.vbds-create (record { vm = vm; vdi = vdi.id }) s) [
              | inl (vbd, of_vm, of_vdi, e) ↦
                  subst (IsExclusive v) (sym (e ∙ ap (λ k. k ++ vbd ∷ []) h))
                    (IsExclusive-append v d vm l vbd exclusive free (of_vm, of_vdi ∙ ap some same))
              | inr e ↦ subst (IsExclusive v) (sym (e ∙ h)) exclusive
            ];
          }))
          (wait-Keeps lawful (IsExclusive v) ticks)

    attach_new-Leads :
        (ticks : ℕ) (vdi : Vdi)
        → vdi.id ≡ d
        → Leads Before After (attach_new lib vendor driver ticks vdi vm)
    unfolding attach_new
    attach_new-Leads ticks vdi same =
        Leads-before _ _ (Leads-map_err _ _ (attach-Leads ticks vdi same))
          (context-Keeps lawful (IsExclusive v))

    device-Keeps :
        (ticks : ℕ) (vbd : Vbd) (device : Option String)
        → Keeps After (elim device [
          | some _ ↦ publish_context_from_vbd vendor vbd
          | none ↦ do
            attached ← map_err (λ _. internal) (wait_for_vdi_to_be_fully_attached lib ticks vbd.id)
            publish_context_from_vbd vendor attached
        ])
    device-Keeps ticks vbd (some device) = context-Keeps lawful (IsExclusive v) vbd
    device-Keeps ticks vbd none =
        Keeps-check _ _ _ (Keeps-map_err _ _ (wait-Keeps lawful (IsExclusive v) ticks vbd.id))
          Keeps-fail (context-Keeps lawful (IsExclusive v))

    publish_vbd-Leads :
        (ticks : ℕ) (vbd : Vbd)
        → Joins d vm vbd
        → Agree vbd l
        → Leads Before After (publish_vbd lib vendor driver ticks vbd)
    unfolding publish_vbd
    publish_vbd-Leads ticks vbd joins agree =
        Leads-if (not vbd.attached) _ _
          (Leads-before _ _ (Leads-map_err _ _ (connect-Leads vbd joins agree))
            (context-Keeps lawful (IsExclusive v)))
          (Leads-Keeps _ weaken (device-Keeps ticks vbd vbd.device))

    choice-Leads :
        (ticks : ℕ) (vdi : Vdi) (picked : Option Vbd)
        → vdi.id ≡ d
        → Picked (λ b. Joins d vm b × Agree b l) picked
        → Leads Before After (elim picked [
          | some vbd ↦ publish_vbd lib vendor driver ticks vbd
          | none ↦ attach_new lib vendor driver ticks vdi vm
        ])
    choice-Leads ticks vdi (some vbd) same (joins, agree) = publish_vbd-Leads ticks vbd joins agree
    choice-Leads ticks vdi none same h = attach_new-Leads ticks vdi same

  module _ (driver : Driver) (agree : IdsAgree l) (ticks : ℕ) where
    pub publish_on_host-Leads :
        (vm_uuid : Uuid) (vm : Vm) (vdi : Vdi)
        → Leads Before After (publish_on_host lib vendor driver ticks vm_uuid vm vdi)
    unfolding publish_on_host is_vdi_used_anywhere
    publish_on_host-Leads vm_uuid vm vdi =
        Leads-after weaken _ _
          (Keeps-map_err _ _ (sr-Keeps lawful (λ k. k ≡ l) vdi.sr vm.container))
          λ _ r _ _ h.
            (Leads-after weaken _ _ (Keeps-map_err _ _ (used-Keeps lawful (λ k. k ≡ l) vdi))
                λ vbds s answer before g.
                  (Leads-after weaken _ _
                      (of_result-Keeps lawful (λ k. k ≡ l) _ (vbd_to_attach vm_uuid none vbds))
                      λ picked t chosen _ k.
                        let listed : vbds ≡ keep (is_of_vdi vdi.id) l =
                          lawful.vbds_of_vdi vdi.id s vbds (
                            map_err-eq_ok api _ s vbds
                              (map_err-eq_ok (λ _. internal) _ s vbds answer))
                          ∙ ap (keep (is_of_vdi vdi.id)) before in
                        let (free, shown) = vbd_to_attach-Picked vdi.id vm_uuid l picked agree (
                          subst (λ b. vbd_to_attach vm_uuid none b ≡ ok picked) listed
                            (of_result-eq_ok _ _ t chosen)) in
                        (choice-Leads driver vdi.id vm_uuid free ticks vdi picked refl shown).to _
                          k).to
                    _ g).to
              _ h

    publish_vdi-Leads :
        (context : StringMap) (vm_uuid : Uuid) (vdi : Vdi)
        → (value_at volume_context_key_storage_type context == storage_type_local) ≡ false
        → Leads Before After (publish_vdi lib vendor driver ticks context vm_uuid vdi)
    unfolding publish_vdi
    publish_vdi-Leads context vm_uuid vdi shared =
        let same = λ (k : List Vbd). k ≡ l in
        Leads-after weaken _ _ (adopt-Keeps lawful same driver vdi) λ _ _ _ _ before.
          (Leads-after weaken _ _
              (Keeps-map_err _ _
                (Keeps-of_read (lib.vm_get_by_id vm_uuid) (lawful.reads.vm_get_by_id vm_uuid)))
              λ vm _ _ _ got.
                (Leads-after weaken _ _
                    (refuse_if-Keeps lawful same (not (vm.pool_id == vdi.pool_id))
                      failed_precondition)
                    λ _ _ _ _ checked.
                      (Leads-after weaken _ _
                          (move_to_host-Keeps lawful same driver context vm vdi shared)
                          λ placed _ _ _ moved.
                            (publish_on_host-Leads vm_uuid vm placed).to _ moved).to
                        _ checked).to
                  _ got).to
            _ before

-- With storage that is not local, `ControllerPublishVolume` ends, in whatever way, with no VDI held by
-- two VMs that was not held so before, whatever the node, the volume and the VDI are, if the IDs of VBDs
-- are unique.
pub controller_publish_volume-IsExclusive :
    {S : Type 0} {lib : Library S} {vendor : Vendor} {view : View S}
    (lawful : IsLawful lib vendor view) (driver : Driver) (ticks : ℕ)
    (req : ControllerPublishVolumeRequest) (v : Uuid) (s : S)
    → (value_at volume_context_key_storage_type req.volume_context == storage_type_local) ≡ false
    → IdsAgree (view.vbds s)
    → IsExclusive v (view.vbds s)
    → IsExclusive v (view.vbds (controller_publish_volume lib vendor driver ticks req s).1)
unfolding controller_publish_volume
controller_publish_volume-IsExclusive {lib = lib} {vendor = vendor} {view = view} lawful driver
      ticks req v s shared agree exclusive =
    let same = λ (k : List Vbd). k ≡ view.vbds s in
    let weaken_here = weaken lawful v (view.vbds s) exclusive in
    (Leads-after weaken_here _ _ (node_uuid-Keeps lawful same (vendor.from_string req.node_id))
        λ vm_uuid _ _ _ named.
          (Leads-after weaken_here _ _
              (of_result-Keeps lawful same (λ _. invalid_argument)
                (validate_volume_capability req.volume_capability))
              λ _ _ _ _ able.
                (Leads-after weaken_here _ _
                    (refuse_if-Keeps lawful same (req.volume_id == "") invalid_argument)
                    λ _ _ _ _ given.
                      (Leads-after weaken_here _ _
                          (Keeps-map_err lookup_failed _ (lookup-Keeps lawful same req.volume_id))
                          λ vdi _ _ _ found.
                            (publish_vdi-Leads lawful v (view.vbds s) exclusive driver agree ticks
                                req.volume_context vm_uuid vdi shared).to
                              _ found).to
                        _ given).to
                  _ able).to
            _ named).to
      s refl
