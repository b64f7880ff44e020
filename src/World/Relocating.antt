-- ===== src/World/Relocating.antt =====
-- What is relied on of the migration of a VDI, and where the tag of a volume is then reserved for it.
use xenorchestra_csi_driver.Base.{
  All, contains, ◌==◌, string_eq, ◌++◌, any-append, String, true, false, List, [], ◌∷◌, map, keep,
  any, ok, ◌≡◌, refl, ap, ◌∙◌, nat_eq, string_eq, sym, arith, Bool-cases, inl, inr, subst,
}
use mathlib.Core.List.{Memᴰ}
use mathlib.Core.List.Memᴰ
use xenorchestra_csi_driver.Payloads.{Uuid, Vdi, Task, success}
use xenorchestra_csi_driver.Library.{Library}
use xenorchestra_csi_driver.World.{View, has_tag, tag_vdi}
use xenorchestra_csi_driver.World.Tagging.{is_vdi, Only, Only-none, IsReserved}

-- VDI `id` gets the ID `new`, whatever else happens to it, and the others stay as they are.
pub record IsRelocated (id new : Uuid) (move : Vdi → Vdi) : Type 0 where
  pub others : (v : Vdi) → is_vdi id v ≡ false → move v ≡ v
  pub renamed : (v : Vdi) → is_vdi id v ≡ true → (move v).id ≡ new

-- A migration that ends in success gives the VDI an ID that no VDI had, which its task reports. The tags
-- may be lost.
pub record IsRelocating {S : Type 0} (lib : Library S) (view : View S) : Type 0 where
  pub relocated :
      (id sr : Uuid) (s : S) (task_id : String) (task : Task)
      → (lib.vdi_migrate id sr s).0 ≡ ok task_id
      → (lib.task_wait task_id (lib.vdi_migrate id sr s).1).0 ≡ ok task
      → task.status ≡ success
      → (any (is_vdi task.result_id) (view.vdis s) ≡ false)
        × (move : Vdi → Vdi) × IsRelocated id task.result_id move
        × (view.vdis (lib.task_wait task_id (lib.vdi_migrate id sr s).1).1 ≡ map move (view.vdis s))

pub Only-one :
    (t : String) (vdi : Vdi) (l : List Vdi) → keep (has_tag t) l ≡ vdi ∷ [] → Only t vdi.id l
Only-one t vdi [] h = tt
Only-one t vdi (v ∷ l) h = elim (Bool-cases (has_tag t v)) [
  | inl carried ↦
      let e : v ∷ keep (has_tag t) l ≡ vdi ∷ [] = rw carried at h in
      let its_id : v.id ≡ vdi.id = ground (arith, e) in
      (λ _. ground (arith, its_id), Only-none t vdi.id l (ground (arith, e)))
  | inr free ↦ (λ carried. cc, Only-one t vdi l (rw free at h))
]

module _ (id new : Uuid) (move : Vdi → Vdi) (moves : IsRelocated id new move) where
  is_vdi-move : (v : Vdi) → is_vdi new v ≡ false → is_vdi new (move v) ≡ is_vdi id v
  is_vdi-move v free = elim (Bool-cases (is_vdi id v)) [
    | inl its ↦ let e = moves.renamed v its in ground (arith, e, its)
    | inr other ↦ ap (is_vdi new) (moves.others v other) ∙ free ∙ sym other
  ]

  keep-move :
      (l : List Vdi)
      → any (is_vdi new) l ≡ false
      → keep (is_vdi new) (map move l) ≡ map move (keep (is_vdi id) l)
  keep-move [] free = refl
  keep-move (v ∷ l) free =
      let here = is_vdi-move v in let rest = keep-move l in ground (arith, free, here, rest)

  pub Only-move : (t : String) (l : List Vdi) → Only t id l → Only t new (map move l)
  Only-move t [] only = tt
  Only-move t (v ∷ l) (here, more) = (
    λ carried. elim (Bool-cases (is_vdi id v)) [
      | inl its ↦ let e = moves.renamed v its in ground (arith, e)
      | inr other ↦
          let e = moves.others v other in
          let its = here (subst (λ x. has_tag t x ≡ true) e carried) in cc
    ],
    Only-move t l more,
  )

-- After the migration of the one VDI that carries a tag, the tag is reserved for what it became.
pub IsReserved-move :
    {t : String} {new : Uuid} {vdi : Vdi} {move : Vdi → Vdi} (l : List Vdi)
    → keep (has_tag t) l ≡ vdi ∷ []
    → keep (is_vdi vdi.id) l ≡ vdi ∷ []
    → any (is_vdi new) l ≡ false
    → IsRelocated vdi.id new move
    → IsReserved t new (move vdi) (map move l)
IsReserved-move {t} {new} {vdi} {move} l carries alone free moves = record {
  alone = keep-move vdi.id new move moves l free ∙ ap (map move) alone;
  only = Only-move vdi.id new move moves t l (Only-one t vdi l carries);
}

-- What a migration that ends in success leaves has no tags.
pub record IsForgetting {S : Type 0} (lib : Library S) (view : View S) : Type 0 where
  pub forgotten :
      (id sr : Uuid) (s : S) (task_id : String) (task : Task)
      → (lib.vdi_migrate id sr s).0 ≡ ok task_id
      → (lib.task_wait task_id (lib.vdi_migrate id sr s).1).0 ≡ ok task
      → task.status ≡ success
      → All
          (λ v. is_vdi task.result_id v ≡ true → v.tags ≡ [])
          (view.vdis (lib.task_wait task_id (lib.vdi_migrate id sr s).1).1)

-- A tag that only a VDI without tags may carry is carried by none.
pub nowhere_of_Only :
    (t : String) (id : Uuid) (l : List Vdi)
    → Only t id l
    → All (λ v. is_vdi id v ≡ true → v.tags ≡ []) l
    → keep (has_tag t) l ≡ []
nowhere_of_Only t id [] only bare = refl
nowhere_of_Only t id (v ∷ l) (here, more) (its, rest) = elim (Bool-cases (has_tag t v)) [
  | inl carried ↦
      let tags = its (here carried) in
      let no : contains v.tags t ≡ false = ap (λ x. contains x t) tags in cc
  | inr free ↦ rw free (nowhere_of_Only t id l more rest)
]

contains-append_other :
    (t tag : String) (tags : List String)
    → contains tags t ≡ false
    → (tag == t) ≡ false
    → contains (tags ++ tag ∷ []) t ≡ false
contains-append_other t tag tags h differ =
    rw (any-append (λ x. x == t) tags (tag ∷ []), h, differ) refl

-- The adding of another tag changes nothing of which VDIs carry the tag, if none does.
pub keep-tag_vdi :
    (t tag : String) (id : Uuid) (l : List Vdi)
    → (tag == t) ≡ false
    → keep (has_tag t) l ≡ []
    → keep (has_tag t) (map (tag_vdi id tag) l) ≡ []
keep-tag_vdi t tag id [] differ h = refl
keep-tag_vdi t tag id (v ∷ l) differ h = elim (Bool-cases (has_tag t v)) [
  | inl carried ↦ ground (arith, h, carried)
  | inr free ↦
      let more = keep-tag_vdi t tag id l differ (rw free at h) in
      let other = contains-append_other t tag v.tags free differ in
      ground (arith, free, more, other)
]

-- What there is does not carry a tag that nothing carries.
pub has_tag_of_Memᴰ :
    (t : String) (l : List Vdi) (v : Vdi) → keep (has_tag t) l ≡ [] → Memᴰ v l → has_tag t v ≡ false
has_tag_of_Memᴰ t [] v h m = absurd (Memᴰ.not-nil m)
has_tag_of_Memᴰ t (x ∷ l) v h m = elim (Bool-cases (has_tag t x)) [
  | inl carried ↦ ground (arith, h, carried)
  | inr free ↦ (elim (Memᴰ.cases_cons m) [
    | inl e ↦ subst (λ y. has_tag t y ≡ false) (sym e) free
    | inr later ↦ has_tag_of_Memᴰ t l v (rw free at h) later
  ])
]
