-- ===== src/Controller/Create/Found.antt =====
-- The volume ID that `CreateVolume` returns for a new volume finds its VDI.
use xenorchestra_csi_driver.Base.{
  String, Bool, true, false, ◌<>◌, List, [], ◌∷◌, keep, contains, any, ok, ◌≡◌, refl, nat_eq,
  string_eq, arith, ◌∙◌, ap, sym,
}
use xenorchestra_csi_driver.Payloads.{Vdi, Pool, StorageRepository}
use xenorchestra_csi_driver.Library.{Library, Vendor}
use xenorchestra_csi_driver.Csi.{CreateVolumeRequest, Driver, Volume}
use xenorchestra_csi_driver.World.{View, IsLawful, has_tag, at_most_two}
use xenorchestra_csi_driver.Tags.{build_tag, vdi_tag_key_volume_id}
use xenorchestra_csi_driver.XoClient.{build_tag_filter, new_volume_tags, get_vdi_by_volume_id}
use xenorchestra_csi_driver.XoClient.Lookup.ByTag.{get_vdi_by_volume_id_of_one}
use xenorchestra_csi_driver.Controller.Create.{new_volume, capacity_bytes_of}
use xenorchestra_csi_driver.Controller.Create.New.{keep-append_one, IsNew, new_volume-IsNew}

contains-volume_id_tag :
    (id name managed_by cluster : String)
    → contains (new_volume_tags id name managed_by cluster) (build_tag vdi_tag_key_volume_id id)
      ≡ true
unfolding new_volume_tags
contains-volume_id_tag id name managed_by cluster = ground arith

keep-eq_nil : (p : Vdi → Bool) (l : List Vdi) → any p l ≡ false → keep p l ≡ []
keep-eq_nil p [] h = refl
keep-eq_nil p (v ∷ l) h = ground (arith, keep-eq_nil p l)

module _ {S : Type 0} {lib : Library S} {vendor : Vendor} {view : View S}
    (lawful : IsLawful lib vendor view) (driver : Driver) (req : CreateVolumeRequest) (pool : Pool)
    (sr : StorageRepository) where
  -- The VDI of a volume, as it was asked for and where it was asked for.
  pub record IsFound (vol : Volume) (s : S) : Type 0 where
    pub vdi : Vdi
    pub found : get_vdi_by_volume_id lib vendor vol.volume_id s ≡ (ok vdi, s)
    pub size : vdi.size ≡ capacity_bytes_of req.capacity_range
    pub in_sr : vdi.sr ≡ sr.id
    pub reported : vol.capacity_bytes ≡ vdi.size

  pub get_vdi_by_volume_id_of_new :
      (s s' : S) (vol : Volume) (l : List Vdi) (new : IsNew lawful driver req pool sr s vol s')
      → any (has_tag (build_tag vdi_tag_key_volume_id vol.volume_id)) (view.vdis s) ≡ false
      → (lib.vdi_get_all 2 (build_tag_filter vdi_tag_key_volume_id vol.volume_id) s').0 ≡ ok l
      → get_vdi_by_volume_id lib vendor vol.volume_id s' ≡ (ok new.vdi, s')
  get_vdi_by_volume_id_of_new s s' vol l new fresh e =
      let tag = build_tag vdi_tag_key_volume_id vol.volume_id in
      let tagged : has_tag tag new.vdi ≡ true =
        ap (λ tags. contains tags tag) new.created.tags
        ∙ ap
            (λ (w : Volume).
              contains
                (new_volume_tags (vendor.to_string new.volume_id) req.name
                  (driver.name <> "@" <> driver.version) driver.cluster_tag)
                (build_tag vdi_tag_key_volume_id w.volume_id))
            new.answer
        ∙ contains-volume_id_tag (vendor.to_string new.volume_id) req.name _ _ in
      let listed : l ≡ new.vdi ∷ [] =
        lawful.vdis_by_tag vdi_tag_key_volume_id vol.volume_id s' l e
        ∙ ap (λ k. at_most_two (keep (has_tag tag) k)) new.added
        ∙ ap at_most_two (
            keep-append_one (has_tag tag) (view.vdis s) new.vdi
              (keep-eq_nil (has_tag tag) (view.vdis s) fresh) tagged) in
      get_vdi_by_volume_id_of_one lib vendor vol.volume_id s' new.vdi (e ∙ ap ok listed)
      ∙ ap (λ t. (ok new.vdi, t)) (lawful.reads.vdi_get_all 2 _ s')

  -- After the creation of a new volume the ID that is returned finds, and changes nothing, a VDI of the
  -- size that was asked for and reported, in the chosen SR, if no VDI had that ID before and the VDIs can
  -- be listed.
  pub new_volume-IsFound :
      (s s' : S) (vol : Volume) (l : List Vdi)
      → new_volume lib vendor driver req pool sr s ≡ (ok vol, s')
      → any (has_tag (build_tag vdi_tag_key_volume_id vol.volume_id)) (view.vdis s) ≡ false
      → (lib.vdi_get_all 2 (build_tag_filter vdi_tag_key_volume_id vol.volume_id) s').0 ≡ ok l
      → IsFound vol s'
  new_volume-IsFound s s' vol l made fresh e =
      let new = new_volume-IsNew lawful driver req pool sr s s' vol made in
      record {
        vdi = new.vdi;
        found = get_vdi_by_volume_id_of_new s s' vol l new fresh e;
        size = new.created.size;
        in_sr = new.created.sr;
        reported = ap (λ (w : Volume). w.capacity_bytes) new.answer ∙ sym new.created.size;
      }
