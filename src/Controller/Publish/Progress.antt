-- ===== src/Controller/Publish/Progress.antt =====
-- Connecting and attaching a VBD succeed where Xen Orchestra does what it is asked for
-- (pkg/xenorchestra-csi/controllerserver.go).
use xenorchestra_csi_driver.Base.{
  ℕ, String, Bool, true, ◌&&◌, some, List, [], ◌∷◌, map, any, ok, ◌≡◌, refl, ◌==◌, nat_eq,
  string_eq, option_eq, arith, inl, inr, sym, subst,
}
use mathlib.Core.List.{Memᴰ}
use mathlib.Core.List.Memᴰ
use xenorchestra_csi_driver.Payloads.{Uuid, Vdi, Vbd, Pbd, Task, CreateVbdParams}
use xenorchestra_csi_driver.Library.{Library, Vendor}
use xenorchestra_csi_driver.World.{View, IsLawful, plug}
use xenorchestra_csi_driver.World.Returns.{Returns, Returns-pure, Returns-check, Returns-map_err}
use xenorchestra_csi_driver.XoClient.{
  connect_vbd_to_vm, attach_vdi_to_vm, wait_for_vdi_to_be_fully_attached,
}
use xenorchestra_csi_driver.XoClient.Calls.{wait_task}
use xenorchestra_csi_driver.XoClient.Vbds.Waiting.{
  IsAwaited, wait_for_vdi_to_be_fully_attached_of_awaited,
}
use xenorchestra_csi_driver.Controller.Publish.{publish_context_from_vbd}

-- A VBD with this ID is attached.
abbrev pub is_plugged : Uuid → Vbd → Bool
is_plugged id vbd = vbd.id == id && vbd.attached

-- The VBD has the name of a device.
abbrev pub HasName : Vbd → Type 0
HasName vbd = (name : String) × (vbd.device ≡ some name)

-- Xen Orchestra answers, and connects what it is asked to. A VBD that is attached need not have the name of a
-- device at once, but has it at one of the polls.
pub record CanConnect {S : Type 0} (lib : Library S) (view : View S) (polls : ℕ) : Type 0 where
  pub listed : (n : ℕ) (f : String) (s : S) → (l : List Vbd) × ((lib.vbd_get_all n f s).0 ≡ ok l)
  pub reachable :
      (n : ℕ) (f : String) (s : S)
      → (pbd : Pbd) × (more : List Pbd) × ((lib.pbd_get_all n f s).0 ≡ ok (pbd ∷ more))
  pub tagged : (id : Uuid) (tag : String) (s : S) → (lib.vdi_add_tag id tag s).0 ≡ ok tt
  pub started : (id : Uuid) (s : S) → (task_id : String) × ((lib.vbd_connect id s).0 ≡ ok task_id)
  pub plugged :
      (id : Uuid) (s : S) → view.vbds (lib.vbd_connect id s).1 ≡ map (plug id) (view.vbds s)
  pub waited : (task_id : String) (s : S) → (task : Task) × ((lib.task_wait task_id s).0 ≡ ok task)
  -- A new VBD is attached, sooner or later.
  pub created :
      (params : CreateVbdParams) (s : S)
      → (new : Uuid) × ((lib.vbd_create params s).0 ≡ ok new)
        × IsAwaited lib new polls (lib.vbd_create params s).1
  pub awaited :
      (id : Uuid) (s : S) → any (is_plugged id) (view.vbds s) ≡ true → IsAwaited lib id polls s

-- A VBD that is attached is read under the name of a device at once. `ConnectVBDToVM` does not wait for that.
pub record IsPrompt {S : Type 0} (lib : Library S) (view : View S) : Type 0 where
  pub device :
      (id : Uuid) (s : S)
      → any (is_plugged id) (view.vbds s) ≡ true
      → (vbd : Vbd) × ((lib.vbd_get id s).0 ≡ ok vbd) × HasName vbd

pub any-Mem : (p : Vbd → Bool) (v : Vbd) (l : List Vbd) → Memᴰ v l → p v ≡ true → any p l ≡ true
any-Mem p v [] m h = absurd (Memᴰ.not-nil m)
any-Mem p v (b ∷ l) m h = elim (Memᴰ.cases_cons m) [
  | inl e ↦ let here = subst (λ x. p x ≡ true) e h in ground (arith, here)
  | inr later ↦ ground (arith, any-Mem p v l later h)
]

any-map-Mem :
    (p : Vbd → Bool) (f : Vbd → Vbd) (v : Vbd) (l : List Vbd)
    → Memᴰ v l
    → p (f v) ≡ true
    → any p (map f l) ≡ true
any-map-Mem p f v [] m h = absurd (Memᴰ.not-nil m)
any-map-Mem p f v (b ∷ l) m h = elim (Memᴰ.cases_cons m) [
  | inl e ↦ let here = subst (λ x. p (f x) ≡ true) e h in ground (arith, here)
  | inr later ↦ ground (arith, any-map-Mem p f v l later h)
]

module _ {S : Type 0} {lib : Library S} {vendor : Vendor} {view : View S}
    (lawful : IsLawful lib vendor view) {ticks : ℕ} (can : CanConnect lib view ticks) where
  abbrev pub Plugged : Uuid → S → Type 0
  Plugged id s = any (is_plugged id) (view.vbds s) ≡ true

  -- Nothing more is said of the world.
  abbrev pub Done : {A : Type 0} → A → S → Type 0
  Done a s = Unit {0}

  pub context-Returns :
      (vbd : Vbd) → Returns (λ _. HasName vbd) Done (publish_context_from_vbd vendor vbd)
  context-Returns vbd = record {
    run = λ s full.
        let (name, e) = full in
        (("device", name) ∷ ("vbd", vendor.to_string vbd.id) ∷ [], rw e refl, tt);
  }

  wait_task-Returns :
      (id : Uuid) (task_id : String)
      → Returns (Plugged id) (λ _. Plugged id) (wait_task lib task_id)
  wait_task-Returns id task_id =
      Returns-check {Q = λ _. Plugged id} _ _ _
        (record {
          run = λ s h.
              let (task, e) = can.waited task_id s in
              (
                task,
                e,
                subst (λ l. any (is_plugged id) l ≡ true) (sym (lawful.vbds-wait task_id s)) h,
              );
        })
        (λ task. Returns-pure task (λ s h. h))

  pub wait-Returns :
      (id : Uuid)
      → Returns
          (IsAwaited lib id ticks)
          (λ vbd _. HasName vbd)
          (wait_for_vdi_to_be_fully_attached lib ticks id)
  wait-Returns id = record {
    run = λ s a.
        let (vbd, e, usable) = wait_for_vdi_to_be_fully_attached_of_awaited lib id ticks s a in
        (vbd, e, (usable.device, usable.known));
  }

  pub connect-Returns :
      (prompt : IsPrompt lib view) (vbd : Vbd)
      → Returns (λ s. Memᴰ vbd (view.vbds s)) (λ found _. HasName found) (connect_vbd_to_vm lib vbd)
  unfolding connect_vbd_to_vm
  connect-Returns prompt vbd =
      Returns-check _ _ _
        (Returns-map_err _ _ (record {
          run = λ s m.
              let (task_id, e) = can.started vbd.id s in
              (
                task_id,
                e,
                subst (λ l. any (is_plugged vbd.id) l ≡ true) (sym (can.plugged vbd.id s))
                    (any-map-Mem (is_plugged vbd.id) (plug vbd.id) vbd (view.vbds s) m
                      (ground arith)),
              );
        }))
        (λ task_id.
          Returns-check _ _ _ (wait_task-Returns vbd.id task_id)
            (λ _. Returns-map_err _ _ (record { run = prompt.device vbd.id })))

  pub attach-Returns :
      (vdi : Vdi) (vm : Uuid) {P : S → Type 0}
      → Returns P (λ vbd _. HasName vbd) (attach_vdi_to_vm lib ticks vdi vm)
  unfolding attach_vdi_to_vm
  attach-Returns vdi vm =
      Returns-check _ _ _
        (Returns-map_err _ _
          (record { run = λ s _. can.created (record { vm = vm; vdi = vdi.id }) s }))
        (λ id. wait-Returns id)
