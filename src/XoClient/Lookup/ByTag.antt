-- ===== src/XoClient/Lookup/ByTag.antt =====
-- `GetVDIByVolumeId` where VDIs carry the tag of the volume (pkg/xenorchestra-csi/clients/xoclient.go).
use xenorchestra_csi_driver.Base.{
  String, List, [], ◌∷◌, keep, Result, ok, err, check, ◌≡◌, nat_eq, string_eq, ◌∙◌, ap,
}
use xenorchestra_csi_driver.Payloads.{Vdi}
use xenorchestra_csi_driver.Errors.{Error, wrap, sentinel, err_volume_id_ambiguous}
use xenorchestra_csi_driver.Library.{Library, Vendor}
use xenorchestra_csi_driver.World.{View, IsLawful, has_tag, at_most_two}
use xenorchestra_csi_driver.Tags.{build_tag, vdi_tag_key_volume_id}
use xenorchestra_csi_driver.XoClient.Lookup.{build_tag_filter, get_vdi_by_volume_id}

module _ {S : Type 0} (lib : Library S) (vendor : Vendor) (volume_id : String) (s : S) where
  abbrev listing_world : S
  listing_world = (lib.vdi_get_all 2 (build_tag_filter vdi_tag_key_volume_id volume_id) s).1

  pub get_vdi_by_volume_id_of_one :
      (vdi : Vdi)
      → (lib.vdi_get_all 2 (build_tag_filter vdi_tag_key_volume_id volume_id) s).0 ≡ ok (vdi ∷ [])
      → get_vdi_by_volume_id lib vendor volume_id s ≡ (ok vdi, listing_world)
  unfolding get_vdi_by_volume_id check
  get_vdi_by_volume_id_of_one vdi e = rw e

  get_vdi_by_volume_id_of_two :
      (v w : Vdi)
      → (lib.vdi_get_all 2 (build_tag_filter vdi_tag_key_volume_id volume_id) s).0 ≡ ok (v ∷ w ∷ [])
      → get_vdi_by_volume_id lib vendor volume_id s
        ≡ (err (wrap (sentinel err_volume_id_ambiguous)), listing_world)
  unfolding get_vdi_by_volume_id check
  get_vdi_by_volume_id_of_two v w e = rw e

-- What is to be answered where `v` and `more` carry the tag.
abbrev pub unless_ambiguous : Vdi → List Vdi → Result Error Vdi
unless_ambiguous v [] = ok v
unless_ambiguous v (_ ∷ _) = err (wrap (sentinel err_volume_id_ambiguous))

module _ {S : Type 0} {lib : Library S} {vendor : Vendor} {view : View S}
    (lawful : IsLawful lib vendor view) where
  -- The VDIs that carry the tag of the volume.
  abbrev pub tagged : String → S → List Vdi
  tagged volume_id s = keep (has_tag (build_tag vdi_tag_key_volume_id volume_id)) (view.vdis s)

  listed :
      (volume_id : String) (s : S) (l k : List Vdi)
      → (lib.vdi_get_all 2 (build_tag_filter vdi_tag_key_volume_id volume_id) s).0 ≡ ok l
      → tagged volume_id s ≡ k
      → (lib.vdi_get_all 2 (build_tag_filter vdi_tag_key_volume_id volume_id) s).0
        ≡ ok (at_most_two k)
  listed volume_id s l k e carry =
      e
      ∙ ap ok (lawful.vdis_by_tag vdi_tag_key_volume_id volume_id s l e)
      ∙ ap (λ t. ok (at_most_two t)) carry

  -- Where the VDIs can be listed and some carry the tag of the volume, the lookup finds the one that
  -- does if it is alone, and takes none if there are more: the answer is then that the ID is ambiguous.
  -- Either way nothing is changed.
  pub get_vdi_by_volume_id-tagged :
      (volume_id : String) (s : S) (l : List Vdi) (v : Vdi) (more : List Vdi)
      → (lib.vdi_get_all 2 (build_tag_filter vdi_tag_key_volume_id volume_id) s).0 ≡ ok l
      → tagged volume_id s ≡ v ∷ more
      → get_vdi_by_volume_id lib vendor volume_id s ≡ (unless_ambiguous v more, s)
  get_vdi_by_volume_id-tagged volume_id s l v [] e carry =
      get_vdi_by_volume_id_of_one lib vendor volume_id s v (listed volume_id s l (v ∷ []) e carry)
      ∙ ap (λ t. (ok v, t)) (lawful.reads.vdi_get_all 2 _ s)
  get_vdi_by_volume_id-tagged volume_id s l v (w ∷ more) e carry =
      get_vdi_by_volume_id_of_two lib vendor volume_id s v w
        (listed volume_id s l (v ∷ w ∷ more) e carry)
      ∙ ap (λ t. (err (wrap (sentinel err_volume_id_ambiguous)), t))
          (lawful.reads.vdi_get_all 2 _ s)
