-- ===== src/Controller/Publish/Published.antt =====
-- A publication that succeeds leads to a VBD (pkg/xenorchestra-csi/controllerserver.go).
use xenorchestra_csi_driver.Base.{
  ℕ, String, true, Option, none, some, List, [], ◌∷◌, keep, All, StringMap, Exec, ok, map_err,
  ◌>>=◌, ◌≡◌, refl, nat_eq, string_eq, option_eq, arith, Bool-cases, inl, inr, >>=-eq_ok, sym,
  subst,
}
use mathlib.Core.List.{Memᴰ}
use xenorchestra_csi_driver.Payloads.{Uuid, Vdi, Vbd}
use xenorchestra_csi_driver.Errors.{Code, internal}
use xenorchestra_csi_driver.Csi.{Driver}
use xenorchestra_csi_driver.Library.{Library, Vendor}
use xenorchestra_csi_driver.World.{View, IsLawful, is_of_vdi}
use xenorchestra_csi_driver.World.Naming.{IsNaming}
use xenorchestra_csi_driver.World.Keeps.{map_err-run}
use xenorchestra_csi_driver.XoClient.{
  connect_vbd_to_vm, attach_vdi_to_vm, wait_for_vdi_to_be_fully_attached,
}
use xenorchestra_csi_driver.Controller.Publish.{
  vbd_to_attach, publish_context_from_vbd, publish_vbd, attach_new,
}
use xenorchestra_csi_driver.Controller.Publish.Scan.{last_of, vbd_to_attach_lem}
use xenorchestra_csi_driver.Controller.Publish.Sharing.{
  Agree, Joins, Picked, All-keep, last_of-Picked,
}
use xenorchestra_csi_driver.Controller.Publish.Context.{
  IsPublished, Joins-by_id, answer-IsPublished, wait-Read, connect-eq_ok, attach-eq_ok,
}

All-here : (l k : List Vbd) → ((b : Vbd) → Memᴰ b k → Memᴰ b l) → All (λ b. Memᴰ b l) k
All-here l [] h = tt
All-here l (b ∷ k) h = (h b (Memᴰ.head refl), All-here l k (λ c m. h c (Memᴰ.tail m)))

-- The VBD that the loop picks is among those that there are.
pub Picked-here :
    (d vm : Uuid) (l : List Vbd) (picked : Option Vbd)
    → vbd_to_attach vm none (keep (is_of_vdi d) l) ≡ ok picked
    → Picked (λ b. (is_of_vdi d b ≡ true) × Memᴰ b l) picked
Picked-here d vm l picked h =
    let answer = vbd_to_attach_lem vm none (keep (is_of_vdi d) l) in
    let last : last_of vm none (keep (is_of_vdi d) l) ≡ picked = ground (arith, answer, h) in
    subst (Picked (λ b. (is_of_vdi d b ≡ true) × Memᴰ b l)) last (
      last_of-Picked (λ b. (is_of_vdi d b ≡ true) × Memᴰ b l) vm none (keep (is_of_vdi d) l)
        (All-keep (λ b. Memᴰ b l) (is_of_vdi d) l (All-here l l (λ b m. m))) tt)

module _ {S : Type 0} {lib : Library S} {vendor : Vendor} {view : View S}
    (lawful : IsLawful lib vendor view) (naming : IsNaming lib view) (driver : Driver)
    (ticks : ℕ) where
  device-IsPublished :
      (d vm : Uuid) (vbd : Vbd) (device : Option String) (s t : S) (answer : StringMap)
      → Joins d vm vbd
      → Agree vbd (view.vbds s)
      → Memᴰ vbd (view.vbds s)
      → (elim device as (λ _. Exec S Code StringMap) [
        | some _ ↦ publish_context_from_vbd vendor vbd
        | none ↦ do
          attached ← map_err (λ _. internal) (wait_for_vdi_to_be_fully_attached lib ticks vbd.id)
          publish_context_from_vbd vendor attached
      ])
          s
        ≡ (ok answer, t)
      → IsPublished vendor d vm answer (view.vbds t)
  device-IsPublished d vm vbd (some device) s t answer joins agree present h =
      answer-IsPublished vendor view d vm vbd s t answer joins present h
  device-IsPublished d vm vbd none s t answer joins agree present h =
      let (found, waited, h1) = >>=-eq_ok _ _ s h in
      let u =
        (map_err {F = Code} (λ _. internal) (wait_for_vdi_to_be_fully_attached lib ticks vbd.id)
          s).1 in
      let (its_id, there, same) = wait-Read lawful naming ticks vbd.id s u found (
        map_err-run (λ _. internal) (wait_for_vdi_to_be_fully_attached lib ticks vbd.id) s found
          waited) in
      answer-IsPublished vendor view d vm found u t answer
        (Joins-by_id d vm vbd found (view.vbds u) joins (subst (Agree vbd) (sym same) agree) its_id
          there)
        there h1

  publish_vbd-IsPublished :
      (d vm : Uuid) (vbd : Vbd) (s t : S) (answer : StringMap)
      → Joins d vm vbd
      → Agree vbd (view.vbds s)
      → Memᴰ vbd (view.vbds s)
      → publish_vbd lib vendor driver ticks vbd s ≡ (ok answer, t)
      → IsPublished vendor d vm answer (view.vbds t)
  unfolding publish_vbd connect_vbd_to_vm
  publish_vbd-IsPublished d vm vbd s t answer joins agree present h =
      elim (Bool-cases vbd.attached) [
        | inl attached ↦
            device-IsPublished d vm vbd vbd.device s t answer joins agree present (rw attached at h)
        | inr detached ↦
            let (found, connected, h1) =
              >>=-eq_ok (map_err (λ _. internal) (connect_vbd_to_vm lib vbd)) _ s
                (rw detached at h) in
            let u = (map_err {F = Code} (λ _. internal) (connect_vbd_to_vm lib vbd) s).1 in
            let (its, there) =
              connect-eq_ok lawful naming d vm vbd found s u joins agree
                (map_err-run (λ _. internal) (connect_vbd_to_vm lib vbd) s found connected) in
            answer-IsPublished vendor view d vm found u t answer its there h1
      ]

  attach_new-IsPublished :
      (vdi : Vdi) (vm : Uuid) (s t : S) (answer : StringMap)
      → attach_new lib vendor driver ticks vdi vm s ≡ (ok answer, t)
      → IsPublished vendor vdi.id vm answer (view.vbds t)
  unfolding attach_new
  attach_new-IsPublished vdi vm s t answer h =
      let (found, attached, h1) = >>=-eq_ok _ _ s h in
      let u = (map_err {F = Code} (λ _. internal) (attach_vdi_to_vm lib ticks vdi vm) s).1 in
      let (its, there) =
        attach-eq_ok lawful naming ticks vdi vm found s u
          (map_err-run (λ _. internal) (attach_vdi_to_vm lib ticks vdi vm) s found attached) in
      answer-IsPublished vendor view vdi.id vm found u t answer its there h1

  pub choice-IsPublished :
      (vdi : Vdi) (vm : Uuid) (picked : Option Vbd) (s t : S) (answer : StringMap)
      → Picked (λ b. Joins vdi.id vm b × Agree b (view.vbds s)) picked
      → Picked (λ b. (is_of_vdi vdi.id b ≡ true) × Memᴰ b (view.vbds s)) picked
      → (elim picked as (λ _. Exec S Code StringMap) [
        | some vbd ↦ publish_vbd lib vendor driver ticks vbd
        | none ↦ attach_new lib vendor driver ticks vdi vm
      ])
          s
        ≡ (ok answer, t)
      → IsPublished vendor vdi.id vm answer (view.vbds t)
  choice-IsPublished vdi vm (some vbd) s t answer joins present h =
      publish_vbd-IsPublished vdi.id vm vbd s t answer joins.0 joins.1 present.1 h
  choice-IsPublished vdi vm none s t answer joins present h =
      attach_new-IsPublished vdi vm s t answer h
