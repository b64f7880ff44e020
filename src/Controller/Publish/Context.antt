-- ===== src/Controller/Publish/Context.antt =====
-- What a publication that succeeds returns (pkg/xenorchestra-csi/controllerserver.go).
use xenorchestra_csi_driver.Base.{
  ℕ, zero, suc, String, Option, none, some, List, [], ◌∷◌, map, All, StringMap, Exec, Result, ok,
  err, panic, pure, crash, check, resume, map_err, ◌≡◌, refl, ◌==◌, nat_eq, string_eq, option_eq,
  Bool-cases, inl, inr, >>=-eq_ok, sym, subst, ap, ◌∙◌, if◌then◌else◌, ok-injective,
}
use mathlib.Core.List.{Memᴰ}
use xenorchestra_csi_driver.Payloads.{Uuid, Vdi, Vbd, CreateVbdParams}
use xenorchestra_csi_driver.Errors.{Error, ApiError, Code, api}
use xenorchestra_csi_driver.Library.{Library, Vendor}
use xenorchestra_csi_driver.World.{View, IsLawful, plug}
use xenorchestra_csi_driver.World.Naming.{IsNaming, All-at}
use xenorchestra_csi_driver.World.Keeps.{map_err-eq_ok, map_err-world}
use xenorchestra_csi_driver.XoClient.{
  connect_vbd_to_vm, attach_vdi_to_vm, wait_for_vdi_to_be_fully_attached,
}
use xenorchestra_csi_driver.XoClient.Vbds.{is_fully_attached}
use xenorchestra_csi_driver.XoClient.Calls.{wait_task}
use xenorchestra_csi_driver.Controller.Publish.{publish_context_from_vbd}
use xenorchestra_csi_driver.Controller.Publish.Sharing.{Agree, Joins}
use xenorchestra_csi_driver.Controller.Publish.Steps.{wait_task-Keeps}

-- The answer names a VBD that there is, which joins VDI `d` and VM `vm`, and the device of that VBD.
pub record IsPublished (vendor : Vendor) (d vm : Uuid) (answer : StringMap) (vbds : List Vbd)
    : Type 0 where
  pub vbd : Vbd
  pub device : String
  pub present : Memᴰ vbd vbds
  pub of_vm : vbd.vm ≡ vm
  pub of_vdi : vbd.vdi ≡ some d
  pub has_device : vbd.device ≡ some device
  pub names : answer ≡ ("device", device) ∷ ("vbd", vendor.to_string vbd.id) ∷ []

Agree-plug : (vbd : Vbd) (id : Uuid) (l : List Vbd) → Agree vbd l → Agree vbd (map (plug id) l)
Agree-plug vbd id [] h = tt
Agree-plug vbd id (b ∷ l) h = elim (Bool-cases (b.id == id)) [
  | inl same ↦ rw same (h.0, Agree-plug vbd id l h.1)
  | inr other ↦ rw other (h.0, Agree-plug vbd id l h.1)
]

-- A VBD that is found by the ID of another one which joins the VDI and the VM joins them too.
pub Joins-by_id :
    (d vm : Uuid) (vbd found : Vbd) (l : List Vbd)
    → Joins d vm vbd
    → Agree vbd l
    → found.id ≡ vbd.id
    → Memᴰ found l
    → Joins d vm found
Joins-by_id d vm vbd found l joins agree same present =
    let (its_vm, its_vdi) =
      All-at (λ b. b.id ≡ vbd.id → (b.vm ≡ vbd.vm) × (b.vdi ≡ vbd.vdi)) l agree present same in
    (its_vm ∙ joins.0, its_vdi ∙ joins.1)

module _ {S : Type 0} (vendor : Vendor) (view : View S) where
  pub answer-IsPublished :
      (d vm : Uuid) (vbd : Vbd) (s t : S) (answer : StringMap)
      → Joins d vm vbd
      → Memᴰ vbd (view.vbds s)
      → publish_context_from_vbd vendor vbd s ≡ (ok answer, t)
      → IsPublished vendor d vm answer (view.vbds t)
  answer-IsPublished d vm vbd s t answer joins present h = go vbd.device refl h
    where
      go :
          (o : Option String)
          → vbd.device ≡ o
          → (elim o as (λ _. Exec S Code StringMap) [
            | none ↦ crash
            | some device ↦ pure (("device", device) ∷ ("vbd", vendor.to_string vbd.id) ∷ [])
          ])
              s
            ≡ (ok answer, t)
          → IsPublished vendor d vm answer (view.vbds t)
      go none e k = cc
      go (some device) e k = record {
        vbd = vbd;
        device = device;
        present =
            subst (λ u. Memᴰ vbd (view.vbds u)) (ap (λ (p : Result Code StringMap × S). p.1) k)
              present;
        of_vm = joins.0;
        of_vdi = joins.1;
        has_device = e;
        names = sym (ok-injective (ap (λ (p : Result Code StringMap × S). p.0) k));
      }

module _ {S : Type 0} {lib : Library S} {vendor : Vendor} {view : View S}
    (lawful : IsLawful lib vendor view) (naming : IsNaming lib view) where
  -- A VBD that was read by its ID, and no VBD changed.
  abbrev pub Read : Uuid → S → Vbd → S → Type 0
  Read id s vbd t = (vbd.id ≡ id) × Memᴰ vbd (view.vbds t) × (view.vbds t ≡ view.vbds s)

  vbd_get-Read :
      (id : Uuid) (s t : S) (vbd : Vbd)
      → (lib.vbd_get id s).0 ≡ ok vbd
      → (lib.vbd_get id s).1 ≡ t
      → Read id s vbd t
  vbd_get-Read id s t vbd found e =
      let same : view.vbds t ≡ view.vbds s = ap view.vbds (sym e) ∙ lawful.vbds-vbd_get id s in
      let (its_id, present) = naming.vbd_by_id id s vbd found in
      (its_id, subst (λ l. Memᴰ vbd l) (sym same) present, same)

  -- One poll, and what follows it.
  poll-Read :
      (go_on : Exec S Error Vbd) (id : Uuid) (s t : S) (vbd : Vbd)
      → ((u : S) → go_on u ≡ (ok vbd, t) → Read id u vbd t)
      → check (lib.vbd_get id) (λ _. go_on) (λ v. if is_fully_attached v then pure v else go_on) s
        ≡ (ok vbd, t)
      → Read id s vbd t
  unfolding check
  poll-Read go_on id s t vbd rest h = go (lib.vbd_get id s).0 refl h
    where
      poll_on : go_on (lib.vbd_get id s).1 ≡ (ok vbd, t) → Read id s vbd t
      poll_on k =
          let (its_id, present, same) = rest (lib.vbd_get id s).1 k in
          (its_id, present, same ∙ lawful.vbds-vbd_get id s)

      go :
          (r : Result ApiError Vbd)
          → (lib.vbd_get id s).0 ≡ r
          → resume
              (λ _. go_on)
              (λ v. if is_fully_attached v then pure v else go_on)
              r
              (lib.vbd_get id s).1
            ≡ (ok vbd, t)
          → Read id s vbd t
      go (ok v) e k = elim (Bool-cases (is_fully_attached v)) [
        | inl full ↦
            let done : ◌≡◌ {A = Result Error Vbd × S} (ok v, (lib.vbd_get id s).1) (ok vbd, t) =
              rw full at k in
            vbd_get-Read id s t vbd
              (e ∙ ap ok (ok-injective (ap (λ (p : Result Error Vbd × S). p.0) done)))
              (ap (λ (p : Result Error Vbd × S). p.1) done)
        | inr other ↦ poll_on (rw other at k)
      ]
      go (err x) e k = poll_on k
      go panic e k = cc

  pub wait-Read :
      (ticks : ℕ) (id : Uuid) (s t : S) (vbd : Vbd)
      → wait_for_vdi_to_be_fully_attached lib ticks id s ≡ (ok vbd, t)
      → Read id s vbd t
  unfolding wait_for_vdi_to_be_fully_attached
  wait-Read zero id s t vbd h = cc
  wait-Read (suc ticks) id s t vbd h =
      poll-Read (wait_for_vdi_to_be_fully_attached lib ticks id) id s t vbd
        (λ u. wait-Read ticks id u t vbd) h

  connect-Agree :
      (vbd : Vbd) (s : S)
      → Agree vbd (view.vbds s)
      → Agree vbd (view.vbds (map_err {F = Error} api (lib.vbd_connect vbd.id) s).1)
  connect-Agree vbd s agree =
      subst (λ u. Agree vbd (view.vbds u))
        (sym (map_err-world {F = Error} api (lib.vbd_connect vbd.id) s))
        (elim (lawful.vbds-connect vbd.id s) [
          | inl e ↦ subst (Agree vbd) (sym e) (Agree-plug vbd vbd.id (view.vbds s) agree)
          | inr e ↦ subst (Agree vbd) (sym e) agree
        ])

  -- The VBD that a connection returns.
  pub connect-eq_ok :
      (d vm : Uuid) (vbd found : Vbd) (s t : S)
      → Joins d vm vbd
      → Agree vbd (view.vbds s)
      → connect_vbd_to_vm lib vbd s ≡ (ok found, t)
      → Joins d vm found × Memᴰ found (view.vbds t)
  unfolding connect_vbd_to_vm
  connect-eq_ok d vm vbd found s t joins agree h =
      let (task_id, _, h1) = >>=-eq_ok _ _ s h in
      let (_, _, h2) = >>=-eq_ok (wait_task lib task_id) _ _ h1 in
      let u = (map_err api (lib.vbd_connect vbd.id) s).1 in
      let v = (wait_task lib task_id u).1 in
      let agrees : Agree vbd (view.vbds v) =
        (wait_task-Keeps lawful (Agree vbd) task_id).at u (connect-Agree vbd s agree) in
      let (its_id, present, same) =
        vbd_get-Read vbd.id v t found
          (map_err-eq_ok api (lib.vbd_get vbd.id) v found
            (ap (λ (p : Result Error Vbd × S). p.0) h2))
          (sym (map_err-world api (lib.vbd_get vbd.id) v)
            ∙ ap (λ (p : Result Error Vbd × S). p.1) h2) in
      (
        Joins-by_id d vm vbd found (view.vbds t) joins (subst (Agree vbd) (sym same) agrees) its_id
            present,
        present,
      )

  -- The VBD that an attachment creates.
  pub attach-eq_ok :
      (ticks : ℕ) (vdi : Vdi) (vm : Uuid) (found : Vbd) (s t : S)
      → attach_vdi_to_vm lib ticks vdi vm s ≡ (ok found, t)
      → Joins vdi.id vm found × Memᴰ found (view.vbds t)
  unfolding attach_vdi_to_vm
  attach-eq_ok ticks vdi vm found s t h =
      let (new, created, h1) = >>=-eq_ok _ _ s h in
      let params : CreateVbdParams = record { vm = vm; vdi = vdi.id } in
      let u = (map_err {F = Error} api (lib.vbd_create params) s).1 in
      let (its_id, present, same) = wait-Read ticks new u t found h1 in
      let fresh =
        naming.vbds-created params s new
          (map_err-eq_ok api (lib.vbd_create params) s new created) in
      (
        All-at (λ b. b.id ≡ new → (b.vm ≡ vm) × (b.vdi ≡ some vdi.id)) (view.vbds t)
            (subst (All (λ b. b.id ≡ new → (b.vm ≡ vm) × (b.vdi ≡ some vdi.id)))
              (ap view.vbds (sym (map_err-world {F = Error} api (lib.vbd_create params) s))
                ∙ sym same)
              fresh)
            present its_id,
        present,
      )
