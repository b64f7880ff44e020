-- ===== src/World/Naming.antt =====
-- What is relied on of the IDs of VBDs: a reading by ID answers with a VBD that has it, and a new VBD has an
-- ID that no other has.
use xenorchestra_csi_driver.Base.{some, List, [], ◌∷◌, All, ok, ◌≡◌, inl, inr, subst, sym}
use mathlib.Core.List.{Memᴰ}
use mathlib.Core.List.Memᴰ
use xenorchestra_csi_driver.Payloads.{Uuid, Vbd, CreateVbdParams}
use xenorchestra_csi_driver.Library.{Library}
use xenorchestra_csi_driver.World.{View}

pub record IsNaming {S : Type 0} (lib : Library S) (view : View S) : Type 0 where
  pub vbd_by_id :
      (id : Uuid) (s : S) (vbd : Vbd)
      → (lib.vbd_get id s).0 ≡ ok vbd
      → (vbd.id ≡ id) × Memᴰ vbd (view.vbds s)
  pub vbds-created :
      (params : CreateVbdParams) (s : S) (new : Uuid)
      → (lib.vbd_create params s).0 ≡ ok new
      → All
          (λ b. b.id ≡ new → (b.vm ≡ params.vm) × (b.vdi ≡ some params.vdi))
          (view.vbds (lib.vbd_create params s).1)

pub All-at : {A : Type 0} (P : A → Type 0) {b : A} (l : List A) → All P l → Memᴰ b l → P b
All-at P [] h m = absurd (Memᴰ.not-nil m)
All-at P (x ∷ l) h m = elim (Memᴰ.cases_cons m) [
  | inl e ↦ subst P (sym e) h.0
  | inr later ↦ All-at P l h.1 later
]
