-- ===== src/Controller/Publish/Sharing.antt =====
-- Which VMs hold a VDI, read off the list of VBDs.
use xenorchestra_csi_driver.Base.{
  Bool, true, false, not, ◌&&◌, Option, none, some, List, [], ◌∷◌, ◌++◌, map, sym, subst, keep, any,
  All, any-append, ◌≡◌, refl, ◌==◌, nat_eq, option_eq, if◌then◌else◌, arith, ◌∙◌, Bool-cases, inl,
  inr, ok,
}
use xenorchestra_csi_driver.Payloads.{Uuid, Vbd}
use xenorchestra_csi_driver.World.{is_of_vdi, is_attached_to, plug}
pub use xenorchestra_csi_driver.World.Orderly.{Agree, IdsAgree}
use xenorchestra_csi_driver.Controller.Publish.{vbd_to_attach}
use xenorchestra_csi_driver.Controller.Publish.Scan.{
  is_elsewhere, last_of, vbd_to_attach_lem, last_of-IsOf, IsOf,
}

-- The VBD attaches VDI `v` to a VM that is not `w`.
abbrev pub is_astray : Uuid → Uuid → Vbd → Bool
is_astray v w vbd = is_attached_to v vbd && not (vbd.vm == w)

-- No two VMs hold the VDI.
abbrev pub IsExclusive : Uuid → List Vbd → Type 0
IsExclusive v vbds = (w : Uuid) × (any (is_astray v w) vbds ≡ false)

-- The VBD joins VDI `d` and VM `vm`.
abbrev pub Joins : Uuid → Uuid → Vbd → Type 0
Joins d vm vbd = (vbd.vm ≡ vm) × (vbd.vdi ≡ some d)

pub any_elsewhere-keep :
    (d vm : Uuid) (l : List Vbd)
    → any (is_elsewhere vm) (keep (is_of_vdi d) l) ≡ any (is_astray d vm) l
any_elsewhere-keep d vm [] = refl
any_elsewhere-keep d vm (b ∷ l) = ground (arith, any_elsewhere-keep d vm l)

any_astray-plug :
    (v w : Uuid) (vbd : Vbd) (l : List Vbd)
    → (is_of_vdi v vbd && not (vbd.vm == w)) ≡ false
    → Agree vbd l
    → any (is_astray v w) (map (plug vbd.id) l) ≡ any (is_astray v w) l
any_astray-plug v w vbd [] h agree = refl
any_astray-plug v w vbd (b ∷ l) h agree = elim (Bool-cases (b.id == vbd.id)) [
  | inl same ↦
      let (vm, vdi) = agree.0 (ground arith) in
      rw (same, vm, vdi) (ground (arith, any_astray-plug v w vbd l h agree.1))
  | inr other ↦ rw other (ground (arith, any_astray-plug v w vbd l h agree.1))
]

-- A VM that holds `v`, if one does, and that a VBD of `d` and `vm` may be attached to.
holder :
    (v d vm : Uuid) (l : List Vbd) (vbd : Vbd)
    → IsExclusive v l
    → any (is_astray d vm) l ≡ false
    → Joins d vm vbd
    → (w : Uuid) × (any (is_astray v w) l ≡ false)
      × ((is_of_vdi v vbd && not (vbd.vm == w)) ≡ false)
holder v d vm l vbd (w, kept) free (of_vm, of_vdi) = elim (Bool-cases (v == d)) [
  | inl same ↦ (vm, ground arith, ground arith)
  | inr other ↦ (w, kept, rw of_vdi (ground arith))
]

pub IsExclusive-append :
    (v d vm : Uuid) (l : List Vbd) (vbd : Vbd)
    → IsExclusive v l
    → any (is_astray d vm) l ≡ false
    → Joins d vm vbd
    → IsExclusive v (l ++ vbd ∷ [])
IsExclusive-append v d vm l vbd e free joins =
    let (w, kept, aside) = holder v d vm l vbd e free joins in
    (w, any-append (is_astray v w) l (vbd ∷ []) ∙ ground (arith, kept, aside))

pub IsExclusive-plug :
    (v d vm : Uuid) (l : List Vbd) (vbd : Vbd)
    → IsExclusive v l
    → any (is_astray d vm) l ≡ false
    → Joins d vm vbd
    → Agree vbd l
    → IsExclusive v (map (plug vbd.id) l)
IsExclusive-plug v d vm l vbd e free joins agree =
    let (w, kept, aside) = holder v d vm l vbd e free joins in
    (w, any_astray-plug v w vbd l aside agree ∙ kept)

pub All-keep :
    (P : Vbd → Type 0) (q : Vbd → Bool) (l : List Vbd)
    → All P l
    → All (λ b. (q b ≡ true) × P b) (keep q l)
All-keep P q [] h = tt
All-keep P q (b ∷ l) h = elim (Bool-cases (q b)) [
  | inl e ↦ rw e ((e, h.0), All-keep P q l h.1)
  | inr e ↦ rw e (All-keep P q l h.1)
]

abbrev pub Picked : (Vbd → Type 0) → Option Vbd → Type 0
Picked P none = Unit
Picked P (some vbd) = P vbd

Picked-if :
    (P : Vbd → Type 0) (c : Bool) (b : Vbd) (picked : Option Vbd)
    → P b
    → Picked P picked
    → Picked P (if c then some b else picked)
Picked-if P true b picked p h = p
Picked-if P false b picked p h = h

pub last_of-Picked :
    (P : Vbd → Type 0) (vm : Uuid) (picked : Option Vbd) (l : List Vbd)
    → All P l
    → Picked P picked
    → Picked P (last_of vm picked l)
last_of-Picked P vm picked [] all h = h
last_of-Picked P vm picked (b ∷ l) all h =
    last_of-Picked P vm (if b.vm == vm then some b else picked) l all.1
      (Picked-if P (b.vm == vm) b picked all.0 h)

Picked-and :
    (d vm : Uuid) (l : List Vbd) (picked : Option Vbd)
    → IsOf vm picked
    → Picked (λ b. (is_of_vdi d b ≡ true) × Agree b l) picked
    → Picked (λ b. Joins d vm b × Agree b l) picked
Picked-and d vm l none of_vm h = tt
Picked-and d vm l (some vbd) of_vm h = ((of_vm, ground (arith, h.0)), h.1)

-- Where the loop over the VBDs of `d` goes on, no other VM holds `d`, and what it picks joins `d` and
-- the VM.
pub vbd_to_attach-Picked :
    (d vm : Uuid) (l : List Vbd) (picked : Option Vbd)
    → IdsAgree l
    → vbd_to_attach vm none (keep (is_of_vdi d) l) ≡ ok picked
    → (any (is_astray d vm) l ≡ false) × Picked (λ b. Joins d vm b × Agree b l) picked
vbd_to_attach-Picked d vm l picked agree h =
    let answer = vbd_to_attach_lem vm none (keep (is_of_vdi d) l) in
    let free : any (is_elsewhere vm) (keep (is_of_vdi d) l) ≡ false = ground (arith, answer, h) in
    let last : last_of vm none (keep (is_of_vdi d) l) ≡ picked = ground (arith, answer, h) in
    let shown : Picked (λ b. Joins d vm b × Agree b l) (last_of vm none (keep (is_of_vdi d) l)) =
      Picked-and d vm l _ (last_of-IsOf vm none (keep (is_of_vdi d) l) tt) (
        last_of-Picked (λ b. (is_of_vdi d b ≡ true) × Agree b l) vm none (keep (is_of_vdi d) l)
          (All-keep (λ b. Agree b l) (is_of_vdi d) l agree) tt) in
    (
      sym (any_elsewhere-keep d vm l) ∙ free,
      subst (Picked (λ b. Joins d vm b × Agree b l)) last shown,
    )
