-- ===== src/Examples/Naming.antt =====
-- The IDs of the VBDs in memory.
use xenorchestra_csi_driver.Base.{
  ℕ, ◌<◌, ◌≤◌, some, List, [], ◌∷◌, ◌++◌, All, Result, ok, ◌≡◌, refl, ◌==◌, nat_eq, arith,
  ok-injective, sym, subst, ap, ◌∙◌, Bool-cases, inl, inr,
}
use mathlib.Core.List.{Memᴰ}
use xenorchestra_csi_driver.Payloads.{Uuid, Vbd, CreateVbdParams}
use xenorchestra_csi_driver.Errors.{ApiError}
use xenorchestra_csi_driver.World.Naming.{IsNaming}
use xenorchestra_csi_driver.Examples.Memory.{memory, view, find, above, made_vbd}

found_by_id :
    (id : Uuid) (l : List Vbd) (vbd : Vbd)
    → ◌≡◌ {A = Result ApiError Vbd} (find (λ b. b.id == id) l) (ok vbd)
    → (vbd.id ≡ id) × Memᴰ vbd l
found_by_id id [] vbd h = cc
found_by_id id (b ∷ l) vbd h = elim (Bool-cases (b.id == id)) [
  | inl same ↦
      let e : b ≡ vbd = ok-injective (rw same at h) in
      (ap (λ (x : Vbd). x.id) (sym e) ∙ ground arith, Memᴰ.head (sym e))
  | inr other ↦ let (its_id, m) = found_by_id id l vbd (rw other at h) in (its_id, Memᴰ.tail m)
]

below : (n k : ℕ) (l : List Vbd) → above n l ≤ k → All (λ b. b.id < k) l
below n k [] h = tt
below n k (b ∷ l) h = (ground arith, below n k l (ground arith))

named_apart :
    (params : CreateVbdParams) (new : Uuid) (l : List Vbd)
    → All (λ b. b.id < new) l
    → All
        (λ b. b.id ≡ new → (b.vm ≡ params.vm) × (b.vdi ≡ some params.vdi))
        (l ++ made_vbd params new ∷ [])
named_apart params new [] h = ((λ e. (refl, refl)), tt)
named_apart params new (b ∷ l) h =
    ((λ e. absurd (omega (arith, e, h.0))), named_apart params new l h.1)

pub memory-IsNaming : IsNaming memory view
memory-IsNaming = record {
  vbd_by_id = λ id s vbd h. found_by_id id s.vbds vbd h;
  vbds-created = λ params s new h.
      let e : above s.next s.vbds ≡ new = ok-injective h in
      subst
        (λ n.
          All (λ b. b.id ≡ n → (b.vm ≡ params.vm) × (b.vdi ≡ some params.vdi))
            (s.vbds ++ made_vbd params (above s.next s.vbds) ∷ []))
        e
        (named_apart params (above s.next s.vbds) s.vbds
          (below s.next (above s.next s.vbds) s.vbds (omega arith)));
}
