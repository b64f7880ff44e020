-- ===== src/Controller/Create/New.antt =====
-- What a new volume of `CreateVolume` is: the VDI that is added for it.
use xenorchestra_csi_driver.Base.{
  String, Bool, true, List, [], ◌∷◌, ◌++◌, keep, contains, Result, ok, Exec, check, ◌≡◌, nat_eq,
  string_eq, arith, ◌∙◌, ap, sym, subst, map_err, ◌<>◌, >>=-eq_ok, ok-injective,
}
use xenorchestra_csi_driver.Payloads.{Uuid, Vdi, VdiCreateParams, Pool, StorageRepository}
use xenorchestra_csi_driver.Errors.{Error, Code, internal}
use xenorchestra_csi_driver.Library.{Library, Vendor}
use xenorchestra_csi_driver.Csi.{CreateVolumeRequest, Driver, Volume}
use xenorchestra_csi_driver.World.{View, IsLawful, IsCreated}
use xenorchestra_csi_driver.World.Keeps.{map_err-eq_ok, map_err-world}
use xenorchestra_csi_driver.Tags.{
  build_vdi_name_label, build_vdi_name_description, build_tag, vdi_tag_key_pv_name,
}
use xenorchestra_csi_driver.XoClient.{new_volume_tags, create_new_volume}
use xenorchestra_csi_driver.Controller.Create.{new_volume, volume_for, capacity_bytes_of}

pub contains-new_volume_tags :
    (id name managed_by cluster : String)
    → contains (new_volume_tags id name managed_by cluster) (build_tag vdi_tag_key_pv_name name)
      ≡ true
unfolding new_volume_tags
contains-new_volume_tags id name managed_by cluster = ground arith

pub keep-append_one :
    (p : Vdi → Bool) (xs : List Vdi) (v : Vdi)
    → keep p xs ≡ []
    → p v ≡ true
    → keep p (xs ++ v ∷ []) ≡ v ∷ []
keep-append_one p [] v e h = ground arith
keep-append_one p (x ∷ xs) v e h = ground (arith, keep-append_one p xs v)

module _ {S : Type 0} {lib : Library S} {vendor : Vendor} {view : View S}
    (lawful : IsLawful lib vendor view) (driver : Driver) (req : CreateVolumeRequest) (pool : Pool)
    (sr : StorageRepository) where
  abbrev pub tags_of : Uuid → List String
  tags_of id =
      new_volume_tags (vendor.to_string id) req.name (driver.name <> "@" <> driver.version)
        driver.cluster_tag

  abbrev pub volume_of : Uuid → Volume
  volume_of id = volume_for vendor req pool sr (vendor.to_string id)

  abbrev pub params_of : Uuid → VdiCreateParams
  params_of id = record {
    sr_id = sr.id;
    name_label = build_vdi_name_label driver.vdi_name_prefix (vendor.to_string id) req.name;
    virtual_size = capacity_bytes_of req.capacity_range;
    name_description = build_vdi_name_description req.name;
    tags = tags_of id;
  }

  abbrev make : Exec S Error (Uuid × Uuid)
  make =
      create_new_volume lib vendor sr.id driver.vdi_name_prefix
        (capacity_bytes_of req.capacity_range) req.name (driver.name <> "@" <> driver.version)
        driver.cluster_tag

  make-eq_ok :
      (s : S) (ids : Uuid × Uuid)
      → (make s).0 ≡ ok ids
      → ((lib.vdi_create (params_of ids.1) (lib.new_v4 s).1).0 ≡ ok ids.0)
        × ((make s).1 ≡ (lib.vdi_create (params_of ids.1) (lib.new_v4 s).1).1)
  unfolding create_new_volume check
  make-eq_ok s ids h = ground arith

  -- A new volume: the VDI that stands behind it, and the world that it is added to.
  pub record IsNew (s : S) (vol : Volume) (s' : S) : Type 0 where
    pub volume_id : Uuid
    pub answer : vol ≡ volume_of volume_id
    pub vdi : Vdi
    pub new_id : Uuid
    pub created : IsCreated (params_of volume_id) new_id vdi
    pub added : view.vdis s' ≡ view.vdis s ++ vdi ∷ []
    pub inserted : (lib.vdi_create (params_of volume_id) s).0 ≡ ok new_id
    pub world : s' ≡ (lib.vdi_create (params_of volume_id) s).1

  pub new_volume-IsNew :
      (s s' : S) (vol : Volume)
      → new_volume lib vendor driver req pool sr s ≡ (ok vol, s')
      → IsNew s vol s'
  unfolding new_volume
  new_volume-IsNew s s' vol h =
      let (ids, made, answer) = >>=-eq_ok (map_err (λ _. internal) make) _ s h in
      let (inserted, world) = make-eq_ok s ids (map_err-eq_ok (λ _. internal) make s ids made) in
      let (vdi, created, added) =
        lawful.vdis-create (params_of ids.1) (lib.new_v4 s).1 ids.0 inserted in
      let after : s' ≡ (lib.vdi_create (params_of ids.1) (lib.new_v4 s).1).1 =
        sym (ap (λ (p : Result Code Volume × S). p.1) answer)
        ∙ map_err-world (λ _. internal) make s
        ∙ world in
      record {
        volume_id = ids.1;
        answer = sym (ok-injective (ap (λ (p : Result Code Volume × S). p.0) answer));
        vdi = vdi;
        new_id = ids.0;
        created = created;
        added =
            ap view.vdis after ∙ added ∙ ap (λ t. view.vdis t ++ vdi ∷ []) (lawful.reads.new_v4 s);
        inserted =
            subst (λ u. (lib.vdi_create (params_of ids.1) u).0 ≡ ok ids.0) (lawful.reads.new_v4 s)
              inserted;
        world = after ∙ ap (λ u. (lib.vdi_create (params_of ids.1) u).1) (lawful.reads.new_v4 s);
      }
