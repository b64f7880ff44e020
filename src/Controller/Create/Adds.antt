-- ===== src/Controller/Create/Adds.antt =====
-- What `CreateVolume` adds to the VDIs (pkg/xenorchestra-csi/controllerserver.go).
use xenorchestra_csi_driver.Base.{
  String, true, List, [], ◌∷◌, ◌++◌, contains, Result, ◌<>◌, ◌≡◌, refl, ◌⊎◌, inl, inr, nat_eq,
  string_eq, arith, ◌∙◌, ap, of_result,
}
use xenorchestra_csi_driver.Payloads.{Vdi, Pool, StorageRepository, VdiCreateParams}
use xenorchestra_csi_driver.Errors.{Code, errors_is, err_volume_not_found}
use xenorchestra_csi_driver.Library.{Library, Vendor}
use xenorchestra_csi_driver.Csi.{CreateVolumeRequest, Driver}
use xenorchestra_csi_driver.World.{View, IsLawful, has_tag}
use xenorchestra_csi_driver.World.Keeps.{
  Keeps, Keeps-pure, Keeps-fail, Keeps-of_read, Keeps-check, Keeps-map_err,
}
use xenorchestra_csi_driver.World.Leads.{
  Leads, Leads-check, Leads-map_err, Leads-after, Leads-before, Leads-Keeps, Leads-if,
}
use xenorchestra_csi_driver.Tags.{build_tag, vdi_tag_key_pv_name}
use xenorchestra_csi_driver.XoClient.{the_named_vdi, find_vdi_by_volume_name, create_new_volume}
use xenorchestra_csi_driver.Controller.Create.{
  create_guards, create_volume, create_in, existing_volume, new_volume, capacity_bytes_of,
  storage_type_of,
}
use xenorchestra_csi_driver.Controller.Create.New.{contains-new_volume_tags}
use xenorchestra_csi_driver.Controller.Create.Searches.{resolve_pool-Keeps, local_sr_of_pool-Keeps}

of_result-world : {S A : Type 0} (r : Result Code A) (s : S) → (of_result (λ code. code) r s).1 ≡ s
of_result-world r s = ground arith

the_named_vdi-world : {S : Type 0} (vdis : List Vdi) (s : S) → (the_named_vdi vdis s).1 ≡ s
unfolding the_named_vdi
the_named_vdi-world [] s = refl
the_named_vdi-world (v ∷ []) s = refl
the_named_vdi-world (v ∷ w ∷ more) s = refl

module _ {S : Type 0} {lib : Library S} {vendor : Vendor} {view : View S}
    (lawful : IsLawful lib vendor view) (driver : Driver) (req : CreateVolumeRequest) where
  -- A VDI that stands for the requested volume.
  pub record Serves (vdi : Vdi) : Type 0 where
    pub named : has_tag (build_tag vdi_tag_key_pv_name req.name) vdi ≡ true
    pub size : vdi.size ≡ capacity_bytes_of req.capacity_range

  -- No VDI is added to a list, or one that serves the request.
  pub record AddsOne (before after : List Vdi) : Type 0 where
    pub outcome : (after ≡ before) ⊎ ((vdi : Vdi) × Serves vdi × (after ≡ before ++ vdi ∷ []))

  module _ (l : List Vdi) where
    abbrev Before : S → Type 0
    Before s = view.vdis s ≡ l

    abbrev After : S → Type 0
    After s = AddsOne l (view.vdis s)

    weaken : (s : S) → Before s → After s
    weaken s h = record { outcome = inl h }

    vdi_create-Leads :
        (params : VdiCreateParams)
        → contains params.tags (build_tag vdi_tag_key_pv_name req.name) ≡ true
        → params.virtual_size ≡ capacity_bytes_of req.capacity_range
        → Leads Before After (lib.vdi_create params)
    vdi_create-Leads params named size = record {
      to = λ s h. elim (lawful.vdis-create_any params s) [
        | inl e ↦ record { outcome = inl (e ∙ h) }
        | inr (new, vdi, created, e) ↦
            let serves : Serves vdi = record {
              named =
                  ap (λ tags. contains tags (build_tag vdi_tag_key_pv_name req.name)) created.tags
                  ∙ named;
              size = created.size ∙ size;
            } in
            record { outcome = inr (vdi, serves, e ∙ ap (λ k. k ++ vdi ∷ []) h) }
      ];
    }

    create_new_volume-Leads :
        (sr : StorageRepository)
        → Leads Before After (
            create_new_volume lib vendor sr.id driver.vdi_name_prefix
              (capacity_bytes_of req.capacity_range)
              req.name
              (driver.name <> "@" <> driver.version)
              driver.cluster_tag)
    unfolding create_new_volume
    create_new_volume-Leads sr =
        Leads-after weaken _ _ (Keeps-map_err _ _ (Keeps-of_read lib.new_v4 lawful.reads.new_v4))
          λ id _ _ _ kept.
            (Leads-before {Q = After} _ _
                (Leads-map_err _ _ (
                  vdi_create-Leads _
                    (contains-new_volume_tags (vendor.to_string id) req.name
                      (driver.name <> "@" <> driver.version) driver.cluster_tag)
                    refl))
                (λ _. Keeps-pure _)).to
              _ kept

    new_volume-Leads :
        (pool : Pool) (sr : StorageRepository)
        → Leads Before After (new_volume lib vendor driver req pool sr)
    unfolding new_volume
    new_volume-Leads pool sr =
        Leads-before _ _ (Leads-map_err _ _ (create_new_volume-Leads sr)) (λ _. Keeps-pure _)

    existing_volume-world :
        (pool : Pool) (sr : StorageRepository) (vdi : Vdi) (text : String) (s : S)
        → (existing_volume vendor req pool sr vdi text s).1 ≡ s
    unfolding existing_volume
    existing_volume-world pool sr vdi text s = ground arith

    find-Keeps : Keeps Before (find_vdi_by_volume_name lib req.name)
    unfolding find_vdi_by_volume_name
    find-Keeps =
        Keeps-check _ _ _
          (Keeps-map_err _ _ (Keeps-of_read (lib.vdi_get_all 2 _) (lawful.reads.vdi_get_all 2 _)))
          Keeps-fail (λ vdis. Keeps-of_read _ (the_named_vdi-world vdis))

    create_in-Leads :
        (pool : Pool) (sr : StorageRepository)
        → Leads Before After (create_in lib vendor driver req pool sr)
    unfolding create_in
    create_in-Leads pool sr =
        Leads-check _ _ _ (record { to = find-Keeps.at }) weaken
          (λ e.
            Leads-if (errors_is e err_volume_not_found) _ _ (new_volume-Leads pool sr)
              (Leads-Keeps _ weaken (Keeps-fail _)))
          (λ found s _ kept _.
            weaken _ (ap view.vdis (existing_volume-world pool sr found.0 found.1 _) ∙ kept))

  -- Whatever the request is and however the call ends, `CreateVolume` adds at most one VDI and removes
  -- and changes none; a VDI that it adds has the tag of the requested name and the requested size.
  pub create_volume-AddsOne :
      (s : S) → AddsOne (view.vdis s) (view.vdis (create_volume lib vendor driver req s).1)
  unfolding create_volume
  create_volume-AddsOne s =
      let l = view.vdis s in
      (Leads-after (weaken l) _ _ (Keeps-of_read _ (of_result-world (create_guards req)))
          λ _ _ _ _ first.
            (Leads-after (weaken l) _ _ (resolve_pool-Keeps lib vendor driver lawful.reads req)
                λ chosen _ _ _ second.
                  (Leads-after (weaken l) _ _
                      (local_sr_of_pool-Keeps lib vendor driver lawful.reads
                        (storage_type_of req.parameters) chosen.0 chosen.1)
                      λ sr _ _ _ third. (create_in-Leads l chosen.0 sr).to _ third).to
                    _ second).to
              _ first).to
        s refl
