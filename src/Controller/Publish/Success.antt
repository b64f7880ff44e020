-- ===== src/Controller/Publish/Success.antt =====
-- From the check of the SR on, a publication succeeds where Xen Orchestra does what it is asked for
-- (pkg/xenorchestra-csi/controllerserver.go).
use xenorchestra_csi_driver.Base.{
  Bool, ◌&&◌, ℕ, String, true, false, not, Option, none, some, List, [], ◌∷◌, keep, any, StringMap,
  Exec, ok, check, map_err, of_result, ◌>>=◌, ◌≡◌, refl, nat_eq, string_eq, option_eq, arith, ◌∙◌,
  ap, sym, subst, ◌<>◌,
}
use mathlib.Core.List.{Memᴰ}
use xenorchestra_csi_driver.Payloads.{Uuid, Vdi, Vbd, Vm}
use xenorchestra_csi_driver.Errors.{Code, internal}
use xenorchestra_csi_driver.Csi.{Driver}
use xenorchestra_csi_driver.Library.{Library, Vendor}
use xenorchestra_csi_driver.World.{View, IsLawful, is_of_vdi}
use xenorchestra_csi_driver.World.Keeps.{Keeps-of_read}
use xenorchestra_csi_driver.World.Returns.{
  Returns, Returns-check, Returns-map_err, Returns-Keeps, Returns-if,
}
use xenorchestra_csi_driver.XoClient.{
  is_vdi_used_anywhere, is_sr_attached_to_host, wait_for_vdi_to_be_fully_attached,
}
use xenorchestra_csi_driver.Controller.Publish.{
  vbd_to_attach, publish_vbd, attach_new, publish_on_host, publish_context_from_vbd,
}
use xenorchestra_csi_driver.Controller.Publish.Scan.{last_of, vbd_to_attach_lem}
use xenorchestra_csi_driver.Controller.Publish.Sharing.{is_astray, Picked, any_elsewhere-keep}
use xenorchestra_csi_driver.Controller.Publish.Steps.{sr-Keeps}
use xenorchestra_csi_driver.Controller.Publish.Published.{Picked-here}
use xenorchestra_csi_driver.Controller.Publish.Progress.{
  CanConnect, IsPrompt, is_plugged, any-Mem, Done, context-Returns, wait-Returns, connect-Returns,
  attach-Returns,
}

-- A VBD of the VDI that is not attached.
abbrev pub is_detached : Uuid → Vbd → Bool
is_detached id vbd = is_of_vdi id vbd && not vbd.attached

module _ {S : Type 0} {lib : Library S} {vendor : Vendor} {view : View S}
    (lawful : IsLawful lib vendor view) {ticks : ℕ} (can : CanConnect lib view ticks)
    (driver : Driver) (l : List Vbd) where
  abbrev pub Same : S → Type 0
  Same s = view.vbds s ≡ l

  device-Returns :
      (vbd : Vbd) (device : Option String)
      → vbd.device ≡ device
      → vbd.attached ≡ true
      → Memᴰ vbd l
      → Returns Same (Done lawful can) (elim device as (λ _. Exec S Code StringMap) [
        | some _ ↦ publish_context_from_vbd vendor vbd
        | none ↦ do
          attached ← map_err (λ _. internal) (wait_for_vdi_to_be_fully_attached lib ticks vbd.id)
          publish_context_from_vbd vendor attached
      ])
  device-Returns vbd (some name) e attached here = record {
    run = λ s _. (("device", name) ∷ ("vbd", vendor.to_string vbd.id) ∷ [], rw e refl, tt);
  }
  device-Returns vbd none e attached here =
      Returns-check _ _ _
        (Returns-map_err _ _ (record {
          run = λ s same. (wait-Returns lawful can vbd.id).run s (
              can.awaited vbd.id s (
                subst (λ k. any (is_plugged vbd.id) k ≡ true) (sym same)
                  (any-Mem (is_plugged vbd.id) vbd l here (ground (arith, attached)))));
        }))
        (context-Returns lawful can)

  choice-Returns :
      (vdi : Vdi)
      → (any (is_detached vdi.id) l ≡ true → IsPrompt lib view)
      → (vm : Uuid) (picked : Option Vbd)
      → Picked (λ b. (is_of_vdi vdi.id b ≡ true) × Memᴰ b l) picked
      → Returns Same (Done lawful can) (elim picked as (λ _. Exec S Code StringMap) [
        | some vbd ↦ publish_vbd lib vendor driver ticks vbd
        | none ↦ attach_new lib vendor driver ticks vdi vm
      ])
  unfolding publish_vbd attach_new
  choice-Returns vdi prompt vm (some vbd) (its, here) =
      Returns-if (not vbd.attached) _ _
        (λ off.
          Returns-check _ _ _
            (Returns-map_err _ _ (record {
              run = λ s same.
                  (connect-Returns lawful can
                      (prompt (any-Mem (is_detached vdi.id) vbd l here (ground (arith, its, off))))
                      vbd).run
                    s (subst (λ k. Memᴰ vbd k) (sym same) here);
            }))
            (context-Returns lawful can))
        (λ on. device-Returns vbd vbd.device refl (ground (arith, on)) here)
  choice-Returns vdi prompt vm none here =
      Returns-check _ _ _ (Returns-map_err _ _ (attach-Returns lawful can vdi vm))
        (context-Returns lawful can)

  sr-Returns :
      (sr host : Uuid) → Returns Same (λ _. Same) (is_sr_attached_to_host lib vendor sr host)
  unfolding is_sr_attached_to_host check
  sr-Returns sr host = record {
    run = λ s same.
        let (pbd, more, e) =
          can.reachable 1
            ("SR:" <> vendor.to_string sr <> " host:" <> vendor.to_string host <> " attached?") s in
        (tt, rw e refl, (sr-Keeps lawful (λ k. k ≡ l) sr host).at s same);
  }

  used-Returns :
      (vdi : Vdi)
      → Returns Same
          (λ vbds s. (vbds ≡ keep (is_of_vdi vdi.id) l) × Same s)
          (is_vdi_used_anywhere lib vendor vdi)
  unfolding is_vdi_used_anywhere
  used-Returns vdi = Returns-map_err _ _ (
      Returns-Keeps (λ vbds. vbds ≡ keep (is_of_vdi vdi.id) l) _
        (Keeps-of_read _ (lawful.reads.vbd_get_all 0 _))
        (λ s same.
          let (vbds, e) = can.listed 0 ("VDI:" <> vendor.to_string vdi.id) s in
          (vbds, e, lawful.vbds_of_vdi vdi.id s vbds e ∙ ap (keep (is_of_vdi vdi.id)) same)))

  scan-Returns :
      (vdi : Vdi) (vm : Uuid) (vbds : List Vbd)
      → any (is_astray vdi.id vm) l ≡ false
      → Returns
          (λ s. (vbds ≡ keep (is_of_vdi vdi.id) l) × Same s)
          (λ picked s. Picked (λ b. (is_of_vdi vdi.id b ≡ true) × Memᴰ b l) picked × Same s)
          (of_result {S = S} {F = Code} (λ code. code) (vbd_to_attach vm none vbds))
  scan-Returns vdi vm vbds free = record {
    run = λ s p.
        let goes_on : vbd_to_attach vm none (keep (is_of_vdi vdi.id) l)
            ≡ ok (last_of vm none (keep (is_of_vdi vdi.id) l)) =
          vbd_to_attach_lem vm none (keep (is_of_vdi vdi.id) l)
          ∙ rw (any_elsewhere-keep vdi.id vm l ∙ free) refl in
        (
          last_of vm none (keep (is_of_vdi vdi.id) l),
          rw (p.0, goes_on) refl,
          rw (p.0, goes_on) (Picked-here vdi.id vm l _ goes_on, p.1),
        );
  }

  pub publish_on_host-Returns :
      (vm_uuid : Uuid) (vm : Vm) (vdi : Vdi)
      → any (is_astray vdi.id vm_uuid) l ≡ false
      → (any (is_detached vdi.id) l ≡ true → IsPrompt lib view)
      → Returns Same (Done lawful can) (publish_on_host lib vendor driver ticks vm_uuid vm vdi)
  unfolding publish_on_host
  publish_on_host-Returns vm_uuid vm vdi free prompt =
      Returns-check _ _ _ (Returns-map_err _ _ (sr-Returns vdi.sr vm.container)) λ _.
        Returns-check _ _ _ (Returns-map_err _ _ (used-Returns vdi)) λ vbds.
          Returns-check _ _ _ (scan-Returns vdi vm_uuid vbds free) λ picked. record {
            run = λ s p. (choice-Returns vdi prompt vm_uuid picked p.0).run s p.1;
          }
