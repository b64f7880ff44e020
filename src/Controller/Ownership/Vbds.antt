-- ===== src/Controller/Ownership/Vbds.antt =====
-- What each change of the VBDs keeps: unique IDs, and at most one VM for each VDI.
use xenorchestra_csi_driver.Base.{
  Bool, true, false, ◌||◌, Option, List, [], ◌∷◌, ◌++◌, map, keep, any, All, ◌≡◌, ◌≢◌, refl, ◌==◌,
  nat_eq, option_eq, arith, Bool-cases, inl, inr, sym, subst, ◌∙◌, ap, if◌then◌else◌,
}
use xenorchestra_csi_driver.Payloads.{Uuid, Vbd}
use xenorchestra_csi_driver.World.{is_of_vdi, plug, unplug}
use xenorchestra_csi_driver.World.Orderly.{Agree, IdsAgree, IsMoved}
use xenorchestra_csi_driver.Controller.Publish.Sharing.{is_astray, IsExclusive}
use xenorchestra_csi_driver.Controller.Ownership.{IsOwned}

All-imp : {P Q : Vbd → Type 0} (l : List Vbd) → ((b : Vbd) → P b → Q b) → All P l → All Q l
All-imp [] f h = tt
All-imp (b ∷ l) f h = (f b h.0, All-imp l f h.1)

All-map : (P : Vbd → Type 0) (f : Vbd → Vbd) (l : List Vbd) → All (λ b. P (f b)) l → All P (map f l)
All-map P f [] h = tt
All-map P f (b ∷ l) h = (h.0, All-map P f l h.1)

All-keep_of : (P : Vbd → Type 0) (q : Vbd → Bool) (l : List Vbd) → All P l → All P (keep q l)
All-keep_of P q [] h = tt
All-keep_of P q (b ∷ l) h = elim (Bool-cases (q b)) [
  | inl e ↦ rw e (h.0, All-keep_of P q l h.1)
  | inr e ↦ rw e (All-keep_of P q l h.1)
]

All-append : (P : Vbd → Type 0) (l : List Vbd) (b : Vbd) → All P l → P b → All P (l ++ b ∷ [])
All-append P [] b h p = (p, tt)
All-append P (c ∷ l) b h p = (h.0, All-append P l b h.1 p)

-- A change that leaves the ID and the VM of each VBD, and gives the same VDI to those of one VDI.
pub IdsAgree-map :
    (f : Vbd → Vbd) (g : Option Uuid → Option Uuid) (l : List Vbd)
    → ((b : Vbd) → ((f b).id ≡ b.id) × ((f b).vm ≡ b.vm) × ((f b).vdi ≡ g b.vdi))
    → IdsAgree l
    → IdsAgree (map f l)
IdsAgree-map f g l same h = All-map _ f l (
    All-imp l
      (λ (v : Vbd) (agree : Agree v l). All-map _ f l (
        All-imp l
          (λ (b : Vbd) (shown : b.id ≡ v.id → (b.vm ≡ v.vm) × (b.vdi ≡ v.vdi))
              (e : (f b).id ≡ (f v).id).
            let (vm, vdi) = shown (sym (same b).0 ∙ e ∙ (same v).0) in
            ((same b).1 ∙ vm ∙ sym (same v).1, (same b).2 ∙ ap g vdi ∙ sym (same v).2))
          agree))
      h)

pub IdsAgree-plug : (id : Uuid) (l : List Vbd) → IdsAgree l → IdsAgree (map (plug id) l)
IdsAgree-plug id l = IdsAgree-map (plug id) (λ o. o) l (λ b. ground arith)

IdsAgree-unplug : (id : Uuid) (l : List Vbd) → IdsAgree l → IdsAgree (map (unplug id) l)
IdsAgree-unplug id l = IdsAgree-map (unplug id) (λ o. o) l (λ b. ground arith)

IdsAgree-keep : (q : Vbd → Bool) (l : List Vbd) → IdsAgree l → IdsAgree (keep q l)
IdsAgree-keep q l h = All-keep_of _ q l (All-imp l (λ v agree. All-keep_of _ q l agree) h)

pub IdsAgree-append :
    (l : List Vbd) (new : Vbd) → All (λ b. b.id ≢ new.id) l → IdsAgree l → IdsAgree (l ++ new ∷ [])
IdsAgree-append l new apart h =
    All-append _ l new (old l apart h)
      (All-append _ l new (All-imp l (λ b ne e. absurd (ne e)) apart) (λ e. (refl, refl)))
  where
    old :
        (k : List Vbd)
        → All (λ b. b.id ≢ new.id) k
        → All (λ v. Agree v l) k
        → All (λ v. Agree v (l ++ new ∷ [])) k
    old [] ne agree = tt
    old (v ∷ k) ne agree =
        (All-append _ l new agree.0 (λ e. absurd (ne.0 (sym e))), old k ne.1 agree.1)

-- Where each VBD that passes `q` afterwards passed `p` before.
any-map-false :
    (p q : Vbd → Bool) (f : Vbd → Vbd) (l : List Vbd)
    → ((b : Vbd) → q (f b) ≡ true → p b ≡ true)
    → any p l ≡ false
    → any q (map f l) ≡ false
any-map-false p q f [] h e = refl
any-map-false p q f (b ∷ l) h e = elim (Bool-cases (q (f b))) [
  | inl yes_q ↦ ground (arith, h b yes_q)
  | inr no_q ↦ rw no_q (any-map-false p q f l h (ground arith))
]

any-keep-false : (p q : Vbd → Bool) (l : List Vbd) → any p l ≡ false → any p (keep q l) ≡ false
any-keep-false p q [] e = refl
any-keep-false p q (b ∷ l) e = ground (arith, any-keep-false p q l)

any-or-false :
    (p q : Vbd → Bool) (l : List Vbd)
    → any p l ≡ false
    → any q l ≡ false
    → any (λ b. p b || q b) l ≡ false
any-or-false p q [] e g = refl
any-or-false p q (b ∷ l) e g = ground (arith, any-or-false p q l)

IsExclusive-keep :
    (v : Uuid) (q : Vbd → Bool) (l : List Vbd) → IsExclusive v l → IsExclusive v (keep q l)
IsExclusive-keep v q l (w, e) = (w, any-keep-false (is_astray v w) q l e)

IsExclusive-unplug :
    (v id : Uuid) (l : List Vbd) → IsExclusive v l → IsExclusive v (map (unplug id) l)
IsExclusive-unplug v id l (w, e) =
    (w, any-map-false (is_astray v w) (is_astray v w) (unplug id) l (λ b h. ground arith) e)

module _ (id new : Uuid) (move : Vbd → Vbd) (moved : IsMoved id new move) (l : List Vbd)
    (unused : any (is_of_vdi new) l ≡ false) where
  astray_before :
      (v w : Uuid) (b : Vbd)
      → is_astray v w (move b) ≡ true
      → ((if v == new then is_astray id w b else is_astray v w b) || is_of_vdi new b) ≡ true
  astray_before v w b h = elim (Bool-cases (is_of_vdi id b)) [
    | inl of_id ↦
        let vdi = moved.of_new b of_id in
        let vm = moved.same_vm b of_id in
        let on = moved.was_attached b of_id (ground arith) in
        let off = rw (vdi, vm) at h in ground arith
    | inr other ↦ let same = rw (moved.others b other) at h in ground arith
  ]

  -- The VM that held the old VDI holds the new one.
  IsExclusive-move : ((v : Uuid) → IsExclusive v l) → (v : Uuid) → IsExclusive v (map move l)
  IsExclusive-move exclusive v = elim (Bool-cases (v == new)) [
    | inl same ↦
        let (w, none_astray) = exclusive id in
        (
          w,
          any-map-false (λ b. is_astray id w b || is_of_vdi new b) (is_astray v w) move l
              (λ b h.
                subst
                  (λ c.
                    ((if c then is_astray id w b else is_astray v w b) || is_of_vdi new b) ≡ true)
                  same (astray_before v w b h))
              (any-or-false (is_astray id w) (is_of_vdi new) l none_astray unused),
        )
    | inr other ↦
        let (w, none_astray) = exclusive v in
        (
          w,
          any-map-false (λ b. is_astray v w b || is_of_vdi new b) (is_astray v w) move l
              (λ b h.
                subst
                  (λ c.
                    ((if c then is_astray id w b else is_astray v w b) || is_of_vdi new b) ≡ true)
                  other (astray_before v w b h))
              (any-or-false (is_astray v w) (is_of_vdi new) l none_astray unused),
        )
  ]

  pub IsOwned-move : (IdsAgree l → IdsAgree (map move l)) → IsOwned l → IsOwned (map move l)
  IsOwned-move still h = (still h.0, IsExclusive-move h.1)

pub IsOwned-keep : (q : Vbd → Bool) (l : List Vbd) → IsOwned l → IsOwned (keep q l)
IsOwned-keep q l h = (IdsAgree-keep q l h.0, λ v. IsExclusive-keep v q l (h.1 v))

pub IsOwned-unplug : (id : Uuid) (l : List Vbd) → IsOwned l → IsOwned (map (unplug id) l)
IsOwned-unplug id l h = (IdsAgree-unplug id l h.0, λ v. IsExclusive-unplug v id l (h.1 v))
