-- ===== src/XoClient/Storage/Tagged.antt =====
-- Where adding tags works, `writeTagsToVDI` adds each tag of the driver (pkg/xenorchestra-csi/clients/xoclient.go).
use xenorchestra_csi_driver.Base.{
  keep, String, Bool, true, false, List, [], ◌∷◌, contains, ok, ◌≡◌, refl, sym, ap, ◌∙◌, subst,
  ◌==◌, nat_eq, string_eq, arith, Bool-cases, inl, inr, check, Result, ◌<>◌, has_prefix, ◌||◌,
}
use xenorchestra_csi_driver.Payloads.{Uuid, Vdi}
use xenorchestra_csi_driver.Errors.{Error}
use xenorchestra_csi_driver.Library.{Library}
use xenorchestra_csi_driver.Tags.{tag_prefix}
use xenorchestra_csi_driver.World.{View, has_tag, tag_vdi}
use xenorchestra_csi_driver.World.Tagging.{
  IsTagging, IsReserved, IsReserved-map, tag_vdi-has_either, IsReserved-is_vdi,
}
use xenorchestra_csi_driver.World.Relocating.{keep-tag_vdi}
use xenorchestra_csi_driver.XoClient.Storage.{write_tags_to_vdi}

-- The tag is reserved for a VDI with the ID; and it carries the tag, if it did or the tag is among `tags`.
abbrev pub Written : String → Uuid → Bool → List Vdi → Type 0
Written t id wanted vdis =
    (vdi : Vdi) × IsReserved t id vdi vdis × (wanted ≡ true → has_tag t vdi ≡ true)

or_assoc : (a b c : Bool) → ((a || b) || c) ≡ (a || (b || c))
or_assoc true b c = refl
or_assoc false b c = refl

contains-skipped :
    (tag t : String) (tags : List String)
    → has_prefix tag (tag_prefix <> ":") ≡ false
    → has_prefix t (tag_prefix <> ":") ≡ true
    → contains tags t ≡ contains (tag ∷ tags) t
contains-skipped tag t tags other ours = elim (Bool-cases (tag == t)) [
  | inl same ↦
      let e : tag ≡ t = ground arith in
      let wrong : has_prefix tag (tag_prefix <> ":") ≡ true =
        subst (λ u. has_prefix u (tag_prefix <> ":") ≡ true) (sym e) ours in
      cc
  | inr differ ↦ rw differ refl
]

module _ {S : Type 0} {lib : Library S} {view : View S} (tagging : IsTagging lib view)
    (id : Uuid) where
  abbrev pub written : List String → S → S
  written tags s = (write_tags_to_vdi lib id tags s).1

  -- What is written for one tag, and then for the others.
  write_tags_to_vdi-step :
      (tag : String) (tags : List String) (s : S)
      → has_prefix tag (tag_prefix <> ":") ≡ true
      → write_tags_to_vdi lib id (tag ∷ tags) s
        ≡ write_tags_to_vdi lib id tags (lib.vdi_add_tag id tag s).1
  unfolding write_tags_to_vdi check
  write_tags_to_vdi-step tag tags s h = rw (h, tagging.answered id tag s) refl

  write_tags_to_vdi-skip :
      (tag : String) (tags : List String) (s : S)
      → has_prefix tag (tag_prefix <> ":") ≡ false
      → write_tags_to_vdi lib id (tag ∷ tags) s ≡ write_tags_to_vdi lib id tags s
  unfolding write_tags_to_vdi
  write_tags_to_vdi-skip tag tags s h = rw h refl

  write_tags_to_vdi-ok : (tags : List String) (s : S) → (write_tags_to_vdi lib id tags s).0 ≡ ok tt
  unfolding write_tags_to_vdi
  write_tags_to_vdi-ok [] s = refl
  write_tags_to_vdi-ok (tag ∷ tags) s = elim (Bool-cases (has_prefix tag (tag_prefix <> ":"))) [
    | inl ours ↦
        ap (λ (r : Result Error (Unit {0}) × S). r.0) (write_tags_to_vdi-step tag tags s ours)
        ∙ write_tags_to_vdi-ok tags _
    | inr other ↦
        ap (λ (r : Result Error (Unit {0}) × S). r.0) (write_tags_to_vdi-skip tag tags s other)
        ∙ write_tags_to_vdi-ok tags s
  ]

  Written-tag :
      (t tag : String) (carried : Bool) (s : S)
      → Written t id carried (view.vdis s)
      → Written t id (carried || (tag == t)) (view.vdis (lib.vdi_add_tag id tag s).1)
  Written-tag t tag carried s (vdi, reserved, has) =
      subst (Written t id (carried || (tag == t))) (sym (tagging.effective id tag s)) (
        tag_vdi id tag vdi,
        IsReserved-map tag reserved,
        tag_vdi-has_either t tag id vdi carried (IsReserved-is_vdi reserved) has,
      )

  pub write_tags_to_vdi-Written :
      (t : String) (tags : List String) (carried : Bool) (s : S)
      → has_prefix t (tag_prefix <> ":") ≡ true
      → Written t id carried (view.vdis s)
      → Written t id (carried || contains tags t) (view.vdis (written tags s))
  unfolding write_tags_to_vdi
  write_tags_to_vdi-Written t [] carried s ours w =
      subst (λ b. Written t id b (view.vdis s)) (ground arith) w
  write_tags_to_vdi-Written t (tag ∷ tags) carried s ours w =
      elim (Bool-cases (has_prefix tag (tag_prefix <> ":"))) [
        | inl tagged ↦
            let e = write_tags_to_vdi-step tag tags s tagged in
            let all =
              write_tags_to_vdi-Written t tags (carried || (tag == t)) _ ours
                (Written-tag t tag carried s w) in
            subst (Written t id (carried || contains (tag ∷ tags) t))
              (sym (ap (λ (r : Result Error (Unit {0}) × S). view.vdis r.1) e))
              (subst (λ b. Written t id b (view.vdis (written tags (lib.vdi_add_tag id tag s).1)))
                (or_assoc carried (tag == t) (contains tags t)) all)
        | inr skipped ↦
            let e = write_tags_to_vdi-skip tag tags s skipped in
            let all = write_tags_to_vdi-Written t tags carried s ours w in
            subst (Written t id (carried || contains (tag ∷ tags) t))
              (sym (ap (λ (r : Result Error (Unit {0}) × S). view.vdis r.1) e))
              (subst (λ b. Written t id b (view.vdis (written tags s)))
                (ap (λ b. carried || b) (contains-skipped tag t tags skipped ours)) all)
      ]

  -- Where no VDI carries the tag, writing other tags changes nothing of that.
  pub write_tags_to_vdi-nowhere :
      (t : String) (tags : List String) (s : S)
      → contains tags t ≡ false
      → keep (has_tag t) (view.vdis s) ≡ []
      → keep (has_tag t) (view.vdis (written tags s)) ≡ []
  unfolding write_tags_to_vdi
  write_tags_to_vdi-nowhere t [] s other h = h
  write_tags_to_vdi-nowhere t (tag ∷ tags) s other h =
      let differ : (tag == t) ≡ false = ground (arith, other) in
      let later : contains tags t ≡ false = ground (arith, other) in
      elim (Bool-cases (has_prefix tag (tag_prefix <> ":"))) [
        | inl ours ↦
            let e = write_tags_to_vdi-step tag tags s ours in
            let more = write_tags_to_vdi-nowhere t tags (lib.vdi_add_tag id tag s).1 later (
              subst (λ l. keep (has_tag t) l ≡ []) (sym (tagging.effective id tag s))
                (keep-tag_vdi t tag id (view.vdis s) differ h)) in
            subst (λ (r : Result Error (Unit {0}) × S). keep (has_tag t) (view.vdis r.1) ≡ [])
              (sym e) more
        | inr skipped ↦
            let e = write_tags_to_vdi-skip tag tags s skipped in
            let more = write_tags_to_vdi-nowhere t tags s later h in
            subst (λ (r : Result Error (Unit {0}) × S). keep (has_tag t) (view.vdis r.1) ≡ [])
              (sym e) more
      ]
