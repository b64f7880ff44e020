-- ===== src/Controller/Publish/Released.antt =====
-- What a `ControllerUnpublishVolume` brings about where Xen Orchestra does what it is asked for
-- (pkg/xenorchestra-csi/controllerserver.go).
use xenorchestra_csi_driver.Base.{
  sym, not, ◌&&◌, String, Bool, true, false, some, List, [], ◌∷◌, map, keep, any, Result, ok, err,
  panic, check, resume, fail, pure, ◌≡◌, ◌≢◌, refl, ◌==◌, nat_eq, string_eq, option_eq, arith, ◌∙◌,
  ap, ◌<>◌, if◌then◌else◌,
}
use xenorchestra_csi_driver.Payloads.{Uuid, uuid_nil, Vdi, Vbd, Task}
use xenorchestra_csi_driver.Errors.{
  Code, internal, Error, wrap, sentinel, errors_is, err_vbd_not_found,
}
use xenorchestra_csi_driver.Csi.{ControllerUnpublishVolumeRequest, Driver}
use xenorchestra_csi_driver.Library.{Library, Vendor}
use xenorchestra_csi_driver.World.{View, IsLawful, is_between, unplug}
use xenorchestra_csi_driver.XoClient.{
  get_vbd_from_vdi_and_vm, disconnect_vbd_from_vm, get_vdi_by_volume_id,
}
use xenorchestra_csi_driver.Controller.Publish.{controller_unpublish_volume}
use xenorchestra_csi_driver.Controller.Publish.Steps.{lookup-Keeps}
use xenorchestra_csi_driver.Controller.Publish.Release.{holds}

-- In the world `u` Xen Orchestra lists the VBDs between the VDI and the VM, disconnects the one it is asked
-- to disconnect, and answers when it is waited for.
pub record CanDisconnect {S : Type 0} (lib : Library S) (vendor : Vendor) (view : View S)
    (vdi_id vm_uuid : Uuid) (u : S) : Type 0 where
  pub vbds : List Vbd
  pub listed :
      (lib.vbd_get_all 0
        ("VDI:" <> vendor.to_string vdi_id <> " VM:" <> vendor.to_string vm_uuid)
        u).0
      ≡ ok vbds
  pub started :
      (id : Uuid)
      → (task_id : String) × ((lib.vbd_disconnect id u).0 ≡ ok task_id)
        × (task : Task) × ((lib.task_wait task_id (lib.vbd_disconnect id u).1).0 ≡ ok task)
  pub unplugged :
      (id : Uuid) → view.vbds (lib.vbd_disconnect id u).1 ≡ map (unplug id) (view.vbds u)

-- Of the VBDs between a VDI and a VM, one that has not the ID of the first is attached.
abbrev pub held_besides_first : List Vbd → Bool
held_besides_first [] = false
held_besides_first (v ∷ l) = any (λ b. b.attached && not (b.id == v.id)) l

-- What `ControllerUnpublishVolume` takes for a success.
abbrev is_harmless : Result Error (Unit {0}) → Bool
is_harmless (ok _) = true
is_harmless (err e) = errors_is e err_vbd_not_found
is_harmless panic = false

settled :
    {S : Type 0} (r : Result Error (Unit {0})) (s : S)
    → is_harmless r ≡ true
    → resume
        (λ e. if errors_is e err_vbd_not_found then pure tt else fail internal)
        (λ _. pure tt)
        r
        s
      ≡ (ok tt, s)
settled (ok x) s h = refl
settled (err e) s h = rw h refl
settled panic s h = cc

holds_none :
    (d vm : Uuid) (l : List Vbd) → keep (is_between d vm) l ≡ [] → any (holds d vm) l ≡ false
holds_none d vm [] h = refl
holds_none d vm (b ∷ l) h = ground (arith, h, holds_none d vm l)

-- After a disconnection the VM holds the VDI exactly by the VBDs with other IDs.
any-holds-map :
    (d vm id : Uuid) (l : List Vbd)
    → any (holds d vm) (map (unplug id) l)
      ≡ any (λ b. b.attached && not (b.id == id)) (keep (is_between d vm) l)
any-holds-map d vm id [] = refl
any-holds-map d vm id (b ∷ l) = ground (arith, any-holds-map d vm id l)

first_apart :
    (v : Vbd) (l : List Vbd)
    → any (λ b. b.attached && not (b.id == v.id)) (v ∷ l) ≡ held_besides_first (v ∷ l)
first_apart v l = ground arith

module _ {S : Type 0} {lib : Library S} {vendor : Vendor} {view : View S}
    (lawful : IsLawful lib vendor view) where
  abbrev between_filter : Vdi → Uuid → String
  between_filter vdi vm = "VDI:" <> vendor.to_string vdi.id <> " VM:" <> vendor.to_string vm

  disconnect_of_none :
      (vdi : Vdi) (vm : Uuid) (s : S)
      → (lib.vbd_get_all 0 (between_filter vdi vm) s).0 ≡ ok []
      → disconnect_vbd_from_vm lib vendor vdi vm s ≡ (err (wrap (sentinel err_vbd_not_found)), s)
  unfolding disconnect_vbd_from_vm get_vbd_from_vdi_and_vm check
  disconnect_of_none vdi vm s got =
      rw (got, lawful.reads.vbd_get_all 0 (between_filter vdi vm) s) refl

  disconnect_of_some :
      (vdi : Vdi) (vm : Uuid) (v : Vbd) (l : List Vbd) (s : S)
      → CanDisconnect lib vendor view vdi.id vm s
      → (lib.vbd_get_all 0 (between_filter vdi vm) s).0 ≡ ok (v ∷ l)
      → ((disconnect_vbd_from_vm lib vendor vdi vm s).0 ≡ ok tt)
        × (view.vbds (disconnect_vbd_from_vm lib vendor vdi vm s).1
            ≡ map (unplug v.id) (view.vbds s))
  unfolding disconnect_vbd_from_vm get_vbd_from_vdi_and_vm check
  disconnect_of_some vdi vm v l s can got =
      let same = lawful.reads.vbd_get_all 0 (between_filter vdi vm) s in
      let (task_id, started, task, waited) = can.started v.id in
      (
        rw (got, same, started, waited) refl,
        rw (got, same, started, waited)
            (lawful.vbds-wait task_id (lib.vbd_disconnect v.id s).1 ∙ can.unplugged v.id),
      )

  -- A disconnection that succeeds, or finds nothing to disconnect.
  released :
      (vdi : Vdi) (vm : Uuid) (s : S) (l : List Vbd)
      → CanDisconnect lib vendor view vdi.id vm s
      → (lib.vbd_get_all 0 (between_filter vdi vm) s).0 ≡ ok l
      → keep (is_between vdi.id vm) (view.vbds s) ≡ l
      → (is_harmless (disconnect_vbd_from_vm lib vendor vdi vm s).0 ≡ true)
        × (any (holds vdi.id vm) (view.vbds (disconnect_vbd_from_vm lib vendor vdi vm s).1)
            ≡ held_besides_first l)
  released vdi vm s [] can got h =
      let e = disconnect_of_none vdi vm s got in rw e (refl, holds_none vdi.id vm (view.vbds s) h)
  released vdi vm s (v ∷ l) can got h =
      let (done, after) = disconnect_of_some vdi vm v l s can got in
      (
        rw done refl,
        rw after (
            any-holds-map vdi.id vm v.id (view.vbds s)
            ∙ ap (any (λ b. b.attached && not (b.id == v.id))) h
            ∙ first_apart v l),
      )

  run_of_found :
      (driver : Driver) (req : ControllerUnpublishVolumeRequest) (vm : Uuid) (vdi : Vdi) (s : S)
      → vendor.from_string req.node_id ≡ some vm
      → vm ≢ uuid_nil
      → req.volume_id ≢ ""
      → (get_vdi_by_volume_id lib vendor req.volume_id s).0 ≡ ok vdi
      → is_harmless
          (disconnect_vbd_from_vm lib vendor vdi vm
            (get_vdi_by_volume_id lib vendor req.volume_id s).1).0
        ≡ true
      → controller_unpublish_volume lib vendor driver req s ≡ (
        ok tt,
        (disconnect_vbd_from_vm lib vendor vdi vm
            (get_vdi_by_volume_id lib vendor req.volume_id s).1).1,
      )
  unfolding controller_unpublish_volume check
  run_of_found driver req vm vdi s named real given found harmless =
      let real' : (vm == uuid_nil) ≡ false = ground (arith, real) in
      let given' : (req.volume_id == "") ≡ false = ground (arith, given) in
      let u = (get_vdi_by_volume_id lib vendor req.volume_id s).1 in
      rw (named, real', given', found)
        (settled (disconnect_vbd_from_vm lib vendor vdi vm u).0
          (disconnect_vbd_from_vm lib vendor vdi vm u).1 harmless)

  -- If the request names a VM, and a volume that is found, and after the lookup Xen Orchestra lists the VBDs
  -- between the volume's VDI and the VM, and disconnects what it is asked to: the call succeeds, and afterwards
  -- the VM still holds the VDI exactly if a VBD beyond the first, with another ID, attached it; with at most
  -- one VBD between them it is released.
  pub controller_unpublish_volume-released :
      (driver : Driver) (req : ControllerUnpublishVolumeRequest) (vm : Uuid) (vdi : Vdi) (s : S)
      → vendor.from_string req.node_id ≡ some vm
      → vm ≢ uuid_nil
      → req.volume_id ≢ ""
      → (get_vdi_by_volume_id lib vendor req.volume_id s).0 ≡ ok vdi
      → CanDisconnect lib vendor view vdi.id vm (get_vdi_by_volume_id lib vendor req.volume_id s).1
      → ((controller_unpublish_volume lib vendor driver req s).0 ≡ ok tt)
        × (any (holds vdi.id vm) (view.vbds (controller_unpublish_volume lib vendor driver req s).1)
            ≡ held_besides_first (keep (is_between vdi.id vm) (view.vbds s)))
  controller_unpublish_volume-released driver req vm vdi s named real given found can =
      let u = (get_vdi_by_volume_id lib vendor req.volume_id s).1 in
      let unchanged : view.vbds u ≡ view.vbds s =
        (lookup-Keeps lawful (λ k. k ≡ view.vbds s) req.volume_id).at s refl in
      let all : can.vbds ≡ keep (is_between vdi.id vm) (view.vbds u) =
        lawful.vbds_between vdi.id vm u can.vbds can.listed in
      let (harmless, left) = released vdi vm u can.vbds can can.listed (sym all) in
      let ran = run_of_found driver req vm vdi s named real given found harmless in
      (
        ap (λ (r : Result Code (Unit {0}) × S). r.0) ran,
        ap (λ (r : Result Code (Unit {0}) × S). any (holds vdi.id vm) (view.vbds r.1)) ran
            ∙ left
            ∙ ap held_besides_first all
            ∙ ap (λ k. held_besides_first (keep (is_between vdi.id vm) k)) unchanged,
      )
