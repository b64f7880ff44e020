-- ===== src/World/Orderly.antt =====
-- What is relied on of VDIs and VBDs where calls follow one another: which calls leave them alone, that
-- what is new has an ID of its own, and that the VBDs of a VDI that is migrated follow it.
use xenorchestra_csi_driver.Base.{
  ok, ◌==◌, nat_eq, true, false, not, some, List, [], ◌∷◌, ◌++◌, map, keep, any, All, ◌≡◌, ◌≢◌, ◌⊎◌,
  nat_eq, option_eq,
}
use xenorchestra_csi_driver.Payloads.{Uuid, Vbd, VdiCreateParams, CreateVbdParams}
use xenorchestra_csi_driver.Library.{Library}
use xenorchestra_csi_driver.World.{View, is_of_vdi}

-- VBDs with the ID of `vbd` are of its VM and of its VDI.
abbrev pub Agree : Vbd → List Vbd → Type 0
Agree vbd = All (λ b. b.id ≡ vbd.id → (b.vm ≡ vbd.vm) × (b.vdi ≡ vbd.vdi))

-- An ID names one VBD.
abbrev pub IdsAgree : List Vbd → Type 0
IdsAgree vbds = All (λ vbd. Agree vbd vbds) vbds

-- VDI `id` has become VDI `new`: a VBD of it is replaced by one for the same VM, which is attached
-- only if that was, and the others stay as they are.
pub record IsMoved (id new : Uuid) (move : Vbd → Vbd) : Type 0 where
  pub others : (vbd : Vbd) → is_of_vdi id vbd ≡ false → move vbd ≡ vbd
  pub of_new : (vbd : Vbd) → is_of_vdi id vbd ≡ true → (move vbd).vdi ≡ some new
  pub same_vm : (vbd : Vbd) → is_of_vdi id vbd ≡ true → (move vbd).vm ≡ vbd.vm
  pub was_attached :
      (vbd : Vbd) → is_of_vdi id vbd ≡ true → (move vbd).attached ≡ true → vbd.attached ≡ true

pub record IsOrderly {S : Type 0} (lib : Library S) (view : View S) : Type 0 where
  -- A new VDI has an ID that no other has and no VBD names.
  pub vdi_create_fresh :
      (params : VdiCreateParams) (s : S) (new : Uuid)
      → (lib.vdi_create params s).0 ≡ ok new
      → (any (λ v. v.id == new) (view.vdis s) ≡ false) × (any (is_of_vdi new) (view.vbds s) ≡ false)
  -- A deletion that succeeds takes effect.
  pub vdis-vdi_deleted :
      (id : Uuid) (s : S)
      → (lib.vdi_delete id s).0 ≡ ok tt
      → view.vdis (lib.vdi_delete id s).1 ≡ keep (λ v. not (v.id == id)) (view.vdis s)
  pub vbds-vdi_create :
      (params : VdiCreateParams) (s : S) → view.vbds (lib.vdi_create params s).1 ≡ view.vbds s
  -- With a VDI its own VBDs go.
  pub vbds-vdi_delete :
      (id : Uuid) (s : S)
      → (view.vbds (lib.vdi_delete id s).1 ≡ keep (λ b. not (is_of_vdi id b)) (view.vbds s))
        ⊎ (view.vbds (lib.vdi_delete id s).1 ≡ view.vbds s)
  -- However the creation ends, a VBD that it adds has an ID that no other has.
  pub vbds-vbd_create :
      (params : CreateVbdParams) (s : S)
      → ((vbd : Vbd) × All (λ b. b.id ≢ vbd.id) (view.vbds s)
          × (view.vbds (lib.vbd_create params s).1 ≡ view.vbds s ++ vbd ∷ []))
        ⊎ (view.vbds (lib.vbd_create params s).1 ≡ view.vbds s)
  -- A migration gives the VDI a new ID, which no VBD had, and IDs of VBDs stay unique.
  pub vbds-vdi_migrate :
      (id sr : Uuid) (s : S)
      → ((new : Uuid) × (move : Vbd → Vbd) × IsMoved id new move
          × (any (is_of_vdi new) (view.vbds s) ≡ false)
          × (view.vbds (lib.vdi_migrate id sr s).1 ≡ map move (view.vbds s))
          × (IdsAgree (view.vbds s) → IdsAgree (map move (view.vbds s))))
        ⊎ (view.vbds (lib.vdi_migrate id sr s).1 ≡ view.vbds s)
