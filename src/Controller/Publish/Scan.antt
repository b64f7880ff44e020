-- ===== src/Controller/Publish/Scan.antt =====
-- What the loop over the VBDs of a volume decides.
use xenorchestra_csi_driver.Base.{
  Bool, not, ◌&&◌, Option, none, some, List, [], ◌∷◌, any, ok, err, ◌≡◌, refl, ◌==◌, nat_eq,
  if◌then◌else◌, arith,
}
use xenorchestra_csi_driver.Payloads.{Uuid, Vbd}
use xenorchestra_csi_driver.Errors.{failed_precondition}
use xenorchestra_csi_driver.Controller.Publish.{vbd_to_attach}

-- The VBD attaches the volume to a VM other than the given one.
abbrev pub is_elsewhere : Uuid → Vbd → Bool
is_elsewhere vm vbd = vbd.attached && not (vbd.vm == vm)

-- The last VBD of the VM, or the one picked before.
abbrev pub last_of : Uuid → Option Vbd → List Vbd → Option Vbd
last_of vm picked [] = picked
last_of vm picked (vbd ∷ vbds) = last_of vm (if vbd.vm == vm then some vbd else picked) vbds

-- The volume is refused exactly when some VBD, at any place of the list, attaches it to another VM;
-- otherwise the last VBD of this VM is picked, or none where it has none.
pub vbd_to_attach_lem :
    (vm : Uuid) (picked : Option Vbd) (vbds : List Vbd)
    → vbd_to_attach vm picked vbds ≡ (
        if any (is_elsewhere vm) vbds then err failed_precondition else ok (last_of vm picked vbds))
unfolding vbd_to_attach
vbd_to_attach_lem vm picked [] = refl
vbd_to_attach_lem vm picked (vbd ∷ vbds) =
    ground (arith, vbd_to_attach_lem vm (if vbd.vm == vm then some vbd else picked) vbds)

abbrev pub IsOf : Uuid → Option Vbd → Type 0
IsOf vm none = Unit
IsOf vm (some vbd) = vbd.vm ≡ vm

pub last_of-IsOf :
    (vm : Uuid) (picked : Option Vbd) (vbds : List Vbd)
    → IsOf vm picked
    → IsOf vm (last_of vm picked vbds)
last_of-IsOf vm picked [] h = h
last_of-IsOf vm picked (b ∷ vbds) h =
    last_of-IsOf vm (if b.vm == vm then some b else picked) vbds (ground arith)
