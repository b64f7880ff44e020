-- ===== src/Controller/Publish/Release.antt =====
-- `ControllerUnpublishVolume` takes a VDI from no other VM (pkg/xenorchestra-csi/controllerserver.go).
use xenorchestra_csi_driver.Base.{
  Bool, true, false, ◌&&◌, Option, none, some, List, [], ◌∷◌, map, keep, any, All, ◌≡◌, refl, ◌==◌,
  nat_eq, string_eq, option_eq, ◌∙◌, inl, inr, ok, >>=-eq_ok, sym, subst, ap, arith, Bool-cases,
  fail, pure, Exec,
}
use xenorchestra_csi_driver.Payloads.{Uuid, Vdi, Vbd}
use xenorchestra_csi_driver.Errors.{
  Error, wrap, sentinel, api, errors_is, err_vbd_not_found, err_volume_not_found, invalid_argument,
}
use xenorchestra_csi_driver.Library.{Library, Vendor}
use xenorchestra_csi_driver.Csi.{ControllerUnpublishVolumeRequest, Driver}
use xenorchestra_csi_driver.World.{View, IsLawful, is_attached_to, is_between, unplug}
use xenorchestra_csi_driver.World.Keeps.{
  Keeps, Keeps-pure, Keeps-fail, Keeps-if, Keeps-of_read, Keeps-check, Keeps-map_err, map_err-eq_ok,
}
use xenorchestra_csi_driver.World.Leads.{
  Leads, Leads-check, Leads-map_err, Leads-after, Leads-before, Leads-Keeps,
}
use xenorchestra_csi_driver.XoClient.{get_vbd_from_vdi_and_vm, disconnect_vbd_from_vm}
use xenorchestra_csi_driver.Controller.Publish.{controller_unpublish_volume, node_uuid}
use xenorchestra_csi_driver.Controller.Publish.Sharing.{Agree, IdsAgree, All-keep}
use xenorchestra_csi_driver.Controller.Publish.Steps.{
  wait_task-Keeps, lookup-Keeps, refuse_if-Keeps, node_uuid-Keeps,
}

-- The VBD attaches VDI `v` to VM `w`.
abbrev pub holds : Uuid → Uuid → Vbd → Bool
holds v w vbd = is_attached_to v vbd && vbd.vm == w

any-holds-unplug :
    (v w vm : Uuid) (vbd : Vbd) (l : List Vbd)
    → (w == vm) ≡ false
    → vbd.vm ≡ vm
    → Agree vbd l
    → any (holds v w) (map (unplug vbd.id) l) ≡ any (holds v w) l
any-holds-unplug v w vm vbd [] other of_vm agree = refl
any-holds-unplug v w vm vbd (b ∷ l) other of_vm agree = elim (Bool-cases (b.id == vbd.id)) [
  | inl same ↦
      let (its_vm, _) = agree.0 (ground arith) in
      rw (same, its_vm, of_vm) (ground (arith, any-holds-unplug v w vm vbd l other of_vm agree.1))
  | inr apart ↦ rw apart (ground (arith, any-holds-unplug v w vm vbd l other of_vm agree.1))
]

node_uuid-eq_ok :
    {S : Type 0} (o : Option Uuid) (s : S) {vm : Uuid} → (node_uuid o s).0 ≡ ok vm → o ≡ some vm
node_uuid-eq_ok none s h = cc
node_uuid-eq_ok (some id) s h = ground arith

module _ {S : Type 0} {lib : Library S} {vendor : Vendor} {view : View S}
    (lawful : IsLawful lib vendor view) (v w : Uuid) (l : List Vbd) (agree : IdsAgree l) where
  abbrev Before : S → Type 0
  Before s = view.vbds s ≡ l

  -- As many VBDs as before attach `v` to `w`: some or none.
  abbrev After : S → Type 0
  After s = any (holds v w) (view.vbds s) ≡ any (holds v w) l

  weaken : (s : S) → Before s → After s
  weaken s h = ap (any (holds v w)) h

  -- The first VBD between the VDI and the VM, if there is one, is of that VM.
  first_between :
      (d vm : Uuid) (vbd : Vbd) (more : List Vbd)
      → vbd ∷ more ≡ keep (is_between d vm) l
      → (vbd.vm ≡ vm) × Agree vbd l
  first_between d vm vbd more h =
      let kept : All (λ b. (is_between d vm b ≡ true) × Agree b l) (vbd ∷ more) =
        subst (All (λ b. (is_between d vm b ≡ true) × Agree b l)) (sym h)
          (All-keep (λ b. Agree b l) (is_between d vm) l agree) in
      (ground (arith, kept.0.0), kept.0.1)

  disconnect-Leads :
      (vm : Uuid) (vbd : Vbd)
      → (w == vm) ≡ false
      → vbd.vm ≡ vm
      → Agree vbd l
      → Leads Before After (lib.vbd_disconnect vbd.id)
  disconnect-Leads vm vbd other of_vm agrees = record {
    to = λ s h. elim (lawful.vbds-disconnect vbd.id s) [
      | inl e ↦
          ap (any (holds v w)) (e ∙ ap (map (unplug vbd.id)) h)
          ∙ any-holds-unplug v w vm vbd l other of_vm agrees
      | inr e ↦ ap (any (holds v w)) (e ∙ h)
    ];
  }

  get_vbd-Keeps : (d : Vdi) (vm : Uuid) → Keeps Before (get_vbd_from_vdi_and_vm lib vendor d vm)
  unfolding get_vbd_from_vdi_and_vm
  get_vbd-Keeps d vm =
      Keeps-check _ _ _
        (Keeps-map_err _ _ (Keeps-of_read (lib.vbd_get_all 0 _) (lawful.reads.vbd_get_all 0 _)))
        Keeps-fail (λ vbds. Keeps-of_read _ (λ s. ground arith))

  head_of :
      (vbds : List Vbd) (s : S) {vbd : Vbd} {t : S}
      → (elim vbds as (λ _. Exec S Error Vbd) [
        | [] ↦ fail (wrap (sentinel err_vbd_not_found))
        | first ∷ _ ↦ pure first
      ])
          s
        ≡ (ok vbd, t)
      → (more : List Vbd) × (vbds ≡ vbd ∷ more)
  head_of [] s h = cc
  head_of (first ∷ more) s h = (more, cc)

  get_vbd-eq_ok :
      (d : Vdi) (vm : Uuid) (s : S) (vbd : Vbd)
      → Before s
      → (get_vbd_from_vdi_and_vm lib vendor d vm s).0 ≡ ok vbd
      → (vbd.vm ≡ vm) × Agree vbd l
  unfolding get_vbd_from_vdi_and_vm
  get_vbd-eq_ok d vm s vbd before h =
      let (vbds, answered, chosen) =
        >>=-eq_ok _ _ s (λ i. (h i, (get_vbd_from_vdi_and_vm lib vendor d vm s).1)) in
      let (more, first) = head_of vbds _ chosen in
      first_between d.id vm vbd more (
        sym first
        ∙ lawful.vbds_between d.id vm s vbds (map_err-eq_ok api _ s vbds answered)
        ∙ ap (keep (is_between d.id vm)) before)

  disconnect_vbd_from_vm-Leads :
      (d : Vdi) (vm : Uuid)
      → (w == vm) ≡ false
      → Leads Before After (disconnect_vbd_from_vm lib vendor d vm)
  unfolding disconnect_vbd_from_vm
  disconnect_vbd_from_vm-Leads d vm other =
      Leads-after weaken _ _ (get_vbd-Keeps d vm) λ vbd s answer before after.
        let (of_vm, agrees) = get_vbd-eq_ok d vm s vbd before answer in
        (Leads-before _ _
            (Leads-map_err api (lib.vbd_disconnect vbd.id)
              (disconnect-Leads vm vbd other of_vm agrees))
            (λ task_id.
              Keeps-check _ _ _
                (wait_task-Keeps lawful (λ k. any (holds v w) k ≡ any (holds v w) l) task_id)
                Keeps-fail (λ _. Keeps-pure tt))).to
          _ after

-- Whatever volume is named and however the call ends, `ControllerUnpublishVolume` changes nothing of
-- which VDIs are attached to a VM that is not the node of the request, if the IDs of VBDs are unique.
pub controller_unpublish_volume-holds :
    {S : Type 0} {lib : Library S} {vendor : Vendor} {view : View S}
    (lawful : IsLawful lib vendor view) (driver : Driver) (req : ControllerUnpublishVolumeRequest)
    (v w : Uuid) (s : S)
    → IdsAgree (view.vbds s)
    → ((vm : Uuid) → vendor.from_string req.node_id ≡ some vm → (w == vm) ≡ false)
    → any (holds v w) (view.vbds (controller_unpublish_volume lib vendor driver req s).1)
      ≡ any (holds v w) (view.vbds s)
unfolding controller_unpublish_volume
controller_unpublish_volume-holds {lib = lib} {vendor = vendor} {view = view} lawful driver req v w
      s agree other =
    let l = view.vbds s in
    let kept = weaken lawful v w l agree in
    (Leads-after kept _ _ (node_uuid-Keeps lawful (λ k. k ≡ l) (vendor.from_string req.node_id))
        λ vm t named _ first.
          (Leads-after kept _ _
              (refuse_if-Keeps lawful (λ k. k ≡ l) (req.volume_id == "") invalid_argument)
              λ _ _ _ _ second.
                (Leads-check _ _ _
                    (record { to = (lookup-Keeps lawful (λ k. k ≡ l) req.volume_id).at }) kept
                    (λ e. Leads-Keeps _ kept (
                      Keeps-if (errors_is e err_volume_not_found) _ _ (λ _. Keeps-pure tt)
                        (λ _. Keeps-fail _)))
                    λ vdi _ _ third _.
                      (Leads-check _ _ _
                          (disconnect_vbd_from_vm-Leads lawful v w l agree vdi vm
                            (other vm (node_uuid-eq_ok _ t named)))
                          (λ _ h. h)
                          (λ e. record {
                            to =
                                (Keeps-if (errors_is e err_vbd_not_found) _ _ (λ _. Keeps-pure tt)
                                  (λ _. Keeps-fail _)).at;
                          })
                          λ _ _ _ done _. done).to
                        _ third).to
                  _ second).to
            _ first).to
      s refl
