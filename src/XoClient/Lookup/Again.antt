-- ===== src/XoClient/Lookup/Again.antt =====
-- A lookup by volume ID that fell back on the name or the UUID of a VDI writes the tag of the volume back
-- (pkg/xenorchestra-csi/clients/xoclient.go).
use xenorchestra_csi_driver.Base.{
  String, Option, none, some, true, false, List, [], ◌∷◌, contains, Result, ok, err, panic, check,
  resume, pure, fail, ◌≡◌, refl, sym, subst, ap, ◌∙◌, ◌==◌, nat_eq, string_eq, char_eq, >>=-eq_ok,
  ok-injective, inl, inr, arith, Bool-cases, has_prefix, ◌<>◌, if◌then◌else◌,
}
use mathlib.Core.List.{Memᴰ}
use xenorchestra_csi_driver.Payloads.{Uuid, uuid_nil, Vdi}
use xenorchestra_csi_driver.Errors.{
  Error, ApiError, api, wrap, sentinel, err_volume_not_found, is_not_found_error,
}
use xenorchestra_csi_driver.Library.{Library, Vendor}
use xenorchestra_csi_driver.Tags.{build_tag, vdi_tag_key_volume_id, tag_prefix}
use xenorchestra_csi_driver.World.{View, IsLawful, at_most_two}
use xenorchestra_csi_driver.World.Keeps.{map_err-eq_ok, map_err-world, >>=-eq_ok_of_read}
use xenorchestra_csi_driver.World.Tagging.{
  IsTagging, IsPresent, UniqueIds, IsReserved-unused, IsReserved-is_vdi, keep-has_tag, is_vdi,
}
use xenorchestra_csi_driver.XoClient.Storage.Tagged.{written, write_tags_to_vdi-Written}
use xenorchestra_csi_driver.XoClient.Lookup.{
  build_tag_filter, recovered, only_one, get_vdi_at, get_vdi_by_name_label, get_vdi_by_volume_id,
  tags_to_recover, recover_volume_lookup_tags,
}
use xenorchestra_csi_driver.XoClient.Lookup.ByTag.{tagged, get_vdi_by_volume_id-tagged}

abbrev pub volume_tag : String → String
volume_tag volume_id = build_tag vdi_tag_key_volume_id volume_id

pub has_prefix-volume_tag :
    (volume_id : String) → has_prefix (volume_tag volume_id) (tag_prefix <> ":") ≡ true
unfolding build_tag char_eq
has_prefix-volume_tag volume_id = refl

contains-tags_to_recover :
    (vdi : Vdi) (volume_id : String)
    → contains (tags_to_recover vdi volume_id) (volume_tag volume_id) ≡ true
unfolding tags_to_recover
contains-tags_to_recover vdi volume_id = ground arith

pub eq_of_is_vdi : (id : Uuid) (v : Vdi) → is_vdi id v ≡ true → v.id ≡ id
eq_of_is_vdi id v h = ground arith

at_most_two-eq_nil : (l : List Vdi) → at_most_two l ≡ [] → l ≡ []
at_most_two-eq_nil [] h = refl
at_most_two-eq_nil (v ∷ []) h = cc
at_most_two-eq_nil (v ∷ w ∷ l) h = cc

at_most_two-eq_one : (x : Vdi) (l : List Vdi) → at_most_two l ≡ x ∷ [] → l ≡ x ∷ []
at_most_two-eq_one x [] h = cc
at_most_two-eq_one x (v ∷ []) h = h
at_most_two-eq_one x (v ∷ w ∷ l) h = cc

module _ {S : Type 0} {lib : Library S} {vendor : Vendor} {view : View S}
    (lawful : IsLawful lib vendor view) (tagging : IsTagging lib view)
    (present : IsPresent lib view) (volume_id : String) where
  -- The one VDI that carries the tag of the volume has the ID of `vdi`.
  abbrev pub Marked : Vdi → S → Type 0
  Marked vdi s = (v : Vdi) × (v.id ≡ vdi.id) × (tagged lawful volume_id s ≡ v ∷ [])

  -- The VDI was there before, and the tag of the volume was written to it.
  abbrev pub Recovered : Vdi → S → S → Type 0
  Recovered found s t = Memᴰ found (view.vdis s) × Marked found t

  recovered-Marked :
      (vdi found : Vdi) (s t : S)
      → UniqueIds (view.vdis s)
      → tagged lawful volume_id s ≡ []
      → Memᴰ vdi (view.vdis s)
      → recovered lib volume_id vdi s ≡ (ok found, t)
      → Recovered found s t
  unfolding recovered recover_volume_lookup_tags
  recovered-Marked vdi found s t unique none_has here h =
      let (_, _, e) = >>=-eq_ok _ _ s h in
      let (v, reserved, has) =
        write_tags_to_vdi-Written tagging vdi.id (volume_tag volume_id)
          (tags_to_recover vdi volume_id) false s (has_prefix-volume_tag volume_id)
          (vdi, IsReserved-unused (volume_tag volume_id) _ vdi unique here none_has, λ no. cc) in
      let its_id = IsReserved-is_vdi reserved in
      let same : v.id ≡ vdi.id = eq_of_is_vdi vdi.id v its_id in
      let marked : Marked vdi (written tagging vdi.id (tags_to_recover vdi volume_id) s) =
        (v, same, keep-has_tag reserved (has (contains-tags_to_recover vdi volume_id))) in
      subst (λ x. Recovered x s t) (ok-injective (ap (λ (r : Result Error Vdi × S). r.0) e))
        (here, subst (Marked vdi) (ap (λ (r : Result Error Vdi × S). r.1) e) marked)

  get_vdi_at-Marked :
      (o : Option Uuid) (found : Vdi) (s t : S)
      → UniqueIds (view.vdis s)
      → tagged lawful volume_id s ≡ []
      → get_vdi_at lib volume_id o s ≡ (ok found, t)
      → Recovered found s t
  unfolding get_vdi_at check
  get_vdi_at-Marked none found s t unique none_has h = cc
  get_vdi_at-Marked (some id) found s t unique none_has h = elim (Bool-cases (id == uuid_nil)) [
    | inl nil ↦ let no = rw nil at h in cc
    | inr proper ↦ go (lib.vdi_get id s).0 refl (rw proper at h)
  ]
    where
      go :
          (r : Result ApiError Vdi)
          → (lib.vdi_get id s).0 ≡ r
          → resume
              (λ e.
                if is_not_found_error e
                then fail (sentinel err_volume_not_found)
                else fail (wrap (api e)))
              (recovered lib volume_id)
              r
              (lib.vdi_get id s).1
            ≡ (ok found, t)
          → Recovered found s t
      go (ok vdi) e h =
          recovered-Marked vdi found s t unique none_has (present.got id s vdi e) (
            subst (λ u. recovered lib volume_id vdi u ≡ (ok found, t)) (lawful.reads.vdi_get id s)
              h)
      go (err x) e h = elim (Bool-cases (is_not_found_error x)) [
        | inl missing ↦ let no = rw missing at h in cc
        | inr other ↦ let no = rw other at h in cc
      ]
      go panic e h = cc

  pub get_vdi_by_name_label-Marked :
      (found : Vdi) (s t : S)
      → UniqueIds (view.vdis s)
      → tagged lawful volume_id s ≡ []
      → get_vdi_by_name_label lib vendor volume_id s ≡ (ok found, t)
      → Recovered found s t
  unfolding get_vdi_by_name_label
  get_vdi_by_name_label-Marked found s t unique none_has h =
      let (l, e, rest) =
        >>=-eq_ok_of_read _ _ s (map_err-world _ _ s ∙ lawful.reads.vdi_get_all 2 _ s) h in
      go l (map_err-eq_ok _ _ s l e) rest
    where
      go :
          (l : List Vdi)
          → (lib.vdi_get_all 2 ("name_label:" <> volume_id) s).0 ≡ ok l
          → only_one
              (get_vdi_at lib volume_id (vendor.from_string volume_id))
              (recovered lib volume_id)
              l
              s
            ≡ (ok found, t)
          → Recovered found s t
      go [] e h = get_vdi_at-Marked (vendor.from_string volume_id) found s t unique none_has h
      go (vdi ∷ []) e h =
          recovered-Marked vdi found s t unique none_has
            (present.listed 2 _ s (vdi ∷ []) vdi e (Memᴰ.head refl)) h
      go (_ ∷ _ ∷ _) e h = cc

  -- If adding tags works, an ID names one VDI, and a lookup by volume ID found a VDI, by whichever of its
  -- three ways: after it one VDI, with the ID of that found, carries the tag of the volume; and where the VDIs
  -- can be listed, the same lookup finds this VDI, and changes nothing.
  pub get_vdi_by_volume_id_again :
      (found : Vdi) (s t : S) (l : List Vdi)
      → UniqueIds (view.vdis s)
      → get_vdi_by_volume_id lib vendor volume_id s ≡ (ok found, t)
      → (lib.vdi_get_all 2 (build_tag_filter vdi_tag_key_volume_id volume_id) t).0 ≡ ok l
      → (v : Vdi) × (v.id ≡ found.id)
        × (tagged lawful volume_id t ≡ v ∷ [])
        × (get_vdi_by_volume_id lib vendor volume_id t ≡ (ok v, t))
  unfolding get_vdi_by_volume_id
  get_vdi_by_volume_id_again found s t l unique h can_list =
      let (first, e, rest) =
        >>=-eq_ok_of_read _ _ s (map_err-world _ _ s ∙ lawful.reads.vdi_get_all 2 _ s) h in
      let read = map_err-eq_ok _ _ s first e in
      let (v, same, marked) =
        go first read (lawful.vdis_by_tag vdi_tag_key_volume_id volume_id s first read) rest in
      (v, same, marked, get_vdi_by_volume_id-tagged lawful volume_id t l v [] can_list marked)
    where
      go :
          (first : List Vdi)
          → (lib.vdi_get_all 2 (build_tag_filter vdi_tag_key_volume_id volume_id) s).0 ≡ ok first
          → first ≡ at_most_two (tagged lawful volume_id s)
          → only_one (get_vdi_by_name_label lib vendor volume_id) pure first s ≡ (ok found, t)
          → Marked found t
      go [] e all h =
          (get_vdi_by_name_label-Marked found s t unique (at_most_two-eq_nil _ (sym all)) h).1
      go (vdi ∷ []) e all h =
          subst (λ x. Marked x t) (ok-injective (ap (λ (r : Result Error Vdi × S). r.0) h))
            (subst (Marked vdi) (ap (λ (r : Result Error Vdi × S). r.1) h)
              (vdi, refl, at_most_two-eq_one vdi _ (sym all)))
      go (_ ∷ _ ∷ _) e all h = cc
