-- ===== src/Controller/Volumes/Deletion.antt =====
-- What `DeleteVolume` never deletes.
use xenorchestra_csi_driver.Base.{
  String, Bool, true, false, not, List, [], ◌∷◌, map, some, ap, keep, any, ok, ◌≡◌, refl, ◌==◌,
  nat_eq, option_eq, string_eq, ◌<>◌, arith, Bool-cases, inl, inr, ◌∙◌, sym, subst,
}
use xenorchestra_csi_driver.Payloads.{Uuid, Vdi, Vbd}
use xenorchestra_csi_driver.Errors.{
  internal, invalid_argument, failed_precondition, errors_is, err_volume_not_found,
  is_not_found_error, api,
}
use xenorchestra_csi_driver.Library.{Library, Vendor}
use xenorchestra_csi_driver.World.{View, IsLawful, is_of_vdi, is_attached_to, tag_vdi}
use xenorchestra_csi_driver.World.Keeps.{
  Keeps, Keeps-pure, Keeps-fail, Keeps-if, Keeps-check, map_err-world, map_err-eq_ok,
  Keeps-check_read, Keeps-guard, guard_true-world,
}
use xenorchestra_csi_driver.XoClient.{is_vdi_used_anywhere}
use xenorchestra_csi_driver.XoClient.Lookup.Invariants.{get_vdi_by_volume_id-Keeps}
use xenorchestra_csi_driver.Controller.Volumes.{any_attached, delete_vdi, delete_volume}

abbrev pub has_id : Uuid → Vdi → Bool
has_id id vdi = vdi.id == id

pub any_attached-keep :
    (id : Uuid) (l : List Vbd) → any_attached (keep (is_of_vdi id) l) ≡ any (is_attached_to id) l
any_attached-keep id [] = refl
any_attached-keep id (b ∷ l) = ground (arith, any_attached-keep id l)

any-has_id-tag_vdi :
    (v id : Uuid) (tag : String) (l : List Vdi)
    → any (has_id v) (map (tag_vdi id tag) l) ≡ any (has_id v) l
any-has_id-tag_vdi v id tag [] = refl
any-has_id-tag_vdi v id tag (d ∷ l) = ground (arith, any-has_id-tag_vdi v id tag l)

any-has_id-keep :
    (v id : Uuid) (l : List Vdi)
    → (v == id) ≡ false
    → any (has_id v) (keep (λ d. not (d.id == id)) l) ≡ any (has_id v) l
any-has_id-keep v id [] h = refl
any-has_id-keep v id (d ∷ l) h = ground (arith, any-has_id-keep v id l h)

any-is_attached_to-keep :
    (v id : Uuid) (l : List Vbd)
    → (v == id) ≡ false
    → any (is_attached_to v) (keep (λ b. not (is_of_vdi id b)) l) ≡ any (is_attached_to v) l
any-is_attached_to-keep v id [] h = refl
any-is_attached_to-keep v id (b ∷ l) h = elim (Bool-cases (is_of_vdi id b)) [
  | inl same ↦
      let of_id : b.vdi ≡ some id = ground arith in
      rw (same, of_id) (ground (arith, any-is_attached_to-keep v id l h))
  | inr apart ↦ rw apart (ground (arith, any-is_attached_to-keep v id l h))
]

module _ {S : Type 0} {lib : Library S} {vendor : Vendor} {view : View S}
    (lawful : IsLawful lib vendor view) (v : Uuid) where
  -- The VDI is there, and a VBD attaches it to a VM.
  abbrev pub InUse : S → Type 0
  InUse s = (any (is_attached_to v) (view.vbds s) ≡ true) × (any (has_id v) (view.vdis s) ≡ true)

  add_tag-InUse : (id : Uuid) (tag : String) → Keeps InUse (lib.vdi_add_tag id tag)
  add_tag-InUse id tag = record {
    at = λ s h. (
      rw (lawful.vbds-add_tag id tag s) h.0,
      elim (lawful.vdis-add_tag id tag s) [
        | inl e ↦ rw e (any-has_id-tag_vdi v id tag (view.vdis s) ∙ h.1)
        | inr e ↦ rw e h.1
      ],
    );
  }

  delete-InUse : (id : Uuid) (s : S) → InUse s → (v == id) ≡ false → InUse (lib.vdi_delete id s).1
  delete-InUse id s h other = (
    sym (any-is_attached_to-keep v id (view.vbds (lib.vdi_delete id s).1) other)
        ∙ ap (any (is_attached_to v)) (lawful.vbds-delete id s)
        ∙ any-is_attached_to-keep v id (view.vbds s) other
        ∙ h.0,
    elim (lawful.vdis-delete id s) [
      | inl e ↦ rw e (any-has_id-keep v id (view.vdis s) other ∙ h.1)
      | inr e ↦ rw e h.1
    ],
  )

  -- The guard of the deletion sees each VBD that attaches the VDI.
  any_attached_of_answer :
      (vdi : Vdi) (l : List Vbd) (s : S)
      → InUse s
      → (v == vdi.id) ≡ true
      → (is_vdi_used_anywhere lib vendor vdi s).0 ≡ ok l
      → any_attached l ≡ true
  unfolding is_vdi_used_anywhere
  any_attached_of_answer vdi l s h same e =
      let answer = lawful.vbds_of_vdi vdi.id s l (map_err-eq_ok api _ s l e) in
      rw (answer, any_attached-keep) (ground arith)

  pub is_vdi_used_anywhere-world :
      (vdi : Vdi) (s : S) → (is_vdi_used_anywhere lib vendor vdi s).1 ≡ s
  unfolding is_vdi_used_anywhere
  is_vdi_used_anywhere-world vdi s =
      map_err-world api _ s ∙ lawful.reads.vbd_get_all 0 ("VDI:" <> vendor.to_string vdi.id) s

  delete_vdi-InUse : (vdi : Vdi) → Keeps InUse (delete_vdi lib vendor vdi)
  unfolding delete_vdi
  delete_vdi-InUse vdi =
      Keeps-check_read _ _ _
        (λ s. map_err-world (λ _. internal) _ s ∙ is_vdi_used_anywhere-world vdi s) Keeps-fail
        λ l s h e. elim (Bool-cases (v == vdi.id)) [
          | inl same ↦
              subst InUse
                (sym (
                  guard_true-world failed_precondition _ s (
                    any_attached_of_answer vdi l s h same (map_err-eq_ok (λ _. internal) _ s l e))))
                h
          | inr other ↦
              (Keeps-guard (any_attached l) failed_precondition _ (λ _.
                  Keeps-check _ _ _ (record { at = λ t p. delete-InUse vdi.id t p other })
                    (λ x.
                      Keeps-if (is_not_found_error x) _ _ (λ _. Keeps-pure tt) (λ _. Keeps-fail _))
                    (λ _. Keeps-pure tt))).at
                s h
        ]

  -- Whatever volume ID is given, and however the call ends, a VDI that a VBD attaches to a VM is
  -- still there, and still attached, after `DeleteVolume`.
  pub delete_volume-InUse :
      (volume_id : String) (s : S) → InUse s → InUse (delete_volume lib vendor volume_id s).1
  unfolding delete_volume
  delete_volume-InUse volume_id s h =
      (Keeps-guard (volume_id == "") invalid_argument _ (λ _.
          Keeps-check _ _ _
            (get_vdi_by_volume_id-Keeps lib vendor lawful.reads add_tag-InUse volume_id)
            (λ e.
              Keeps-if (errors_is e err_volume_not_found) _ _ (λ _. Keeps-pure tt)
                (λ _. Keeps-fail _))
            delete_vdi-InUse)).at
        s h
