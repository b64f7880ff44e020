-- ===== src/Controller/Create/Again.antt =====
-- `CreateVolume` is idempotent: asked again for a volume that exists, it returns it and creates none.
use xenorchestra_csi_driver.Base.{
  String, true, List, [], ◌∷◌, keep, contains, Result, ok, err, panic, Exec, check, ◌≡◌, refl,
  nat_eq, string_eq, arith, ◌∙◌, ap, sym, subst, ◌<>◌,
}
use xenorchestra_csi_driver.Payloads.{Uuid, Vdi, ℤ, pos, negsuc, eq_ℤ, Pool, StorageRepository}
use xenorchestra_csi_driver.Errors.{Code, internal}
use xenorchestra_csi_driver.Library.{Library, Vendor}
use xenorchestra_csi_driver.Library.Documented.{IsDocumented}
use xenorchestra_csi_driver.Csi.{CreateVolumeRequest, Driver, Volume}
use xenorchestra_csi_driver.World.{View, IsLawful, has_tag, at_most_two}
use xenorchestra_csi_driver.Tags.{
  build_tag, parse_tag_value, vdi_tag_key_pv_name, vdi_tag_key_volume_id,
}
use xenorchestra_csi_driver.XoClient.{build_tag_filter, find_vdi_by_volume_name}
use xenorchestra_csi_driver.XoClient.Storage.NewTags.{parse_tag_value-new_volume_tags}
use xenorchestra_csi_driver.Controller.Create.New.{
  contains-new_volume_tags, keep-append_one, IsNew, new_volume-IsNew, volume_of,
}
use xenorchestra_csi_driver.Controller.Create.{
  create_in, existing_volume, new_volume, capacity_bytes_of,
}

eq_ℤ_refl : (n : ℤ) → eq_ℤ n n ≡ true
eq_ℤ_refl (pos n) = ground arith
eq_ℤ_refl (negsuc n) = ground arith

at_most_two-eq_nil : (l : List Vdi) → at_most_two l ≡ [] → l ≡ []
at_most_two-eq_nil [] h = refl
at_most_two-eq_nil (v ∷ []) h = cc
at_most_two-eq_nil (v ∷ w ∷ l) h = cc

module _ {S : Type 0} {lib : Library S} {vendor : Vendor} {view : View S}
    (documented : IsDocumented vendor) (lawful : IsLawful lib vendor view) (driver : Driver)
    (req : CreateVolumeRequest) (pool : Pool) (sr : StorageRepository) where
  abbrev list_named : Exec S String (List Vdi)
  list_named = lib.vdi_get_all 2 (build_tag_filter vdi_tag_key_pv_name req.name)

  abbrev run : Exec S Code Volume
  run = create_in lib vendor driver req pool sr

  pub run_of_none :
      (s : S)
      → (list_named s).0 ≡ ok []
      → run s ≡ new_volume lib vendor driver req pool sr (list_named s).1
  unfolding create_in find_vdi_by_volume_name check
  run_of_none s e = rw e

  run_of_one :
      (s : S) (v : Vdi)
      → (list_named s).0 ≡ ok (v ∷ [])
      → run s
        ≡ existing_volume vendor req pool sr v
            (parse_tag_value v.tags vdi_tag_key_volume_id)
            (list_named s).1
  unfolding create_in find_vdi_by_volume_name check
  run_of_one s v e = rw e

  existing_volume_of_new :
      (vdi : Vdi) (text : String) (id : Uuid) (t : S)
      → vdi.size ≡ capacity_bytes_of req.capacity_range
      → text ≡ vendor.to_string id
      → existing_volume vendor req pool sr vdi text t
        ≡ (ok (volume_of lawful driver req pool sr id), t)
  unfolding existing_volume
  existing_volume_of_new vdi text id t size same =
      rw (size, same)
        (ground (
          arith,
          eq_ℤ_refl (capacity_bytes_of req.capacity_range),
          documented.to_string-ne-empty id,
        ))

  listed_after_new :
      (s s' : S) (vol : Volume) (new : IsNew lawful driver req pool sr s vol s') (l : List Vdi)
      → keep (has_tag (build_tag vdi_tag_key_pv_name req.name)) (view.vdis s) ≡ []
      → (list_named s').0 ≡ ok l
      → l ≡ new.vdi ∷ []
  listed_after_new s s' vol new l fresh e =
      lawful.vdis_by_tag vdi_tag_key_pv_name req.name s' l e
      ∙ ap (λ k. at_most_two (keep (has_tag (build_tag vdi_tag_key_pv_name req.name)) k)) new.added
      ∙ ap at_most_two (
          keep-append_one (has_tag (build_tag vdi_tag_key_pv_name req.name)) (view.vdis s) new.vdi
            fresh
            (ap (λ tags. contains tags (build_tag vdi_tag_key_pv_name req.name)) new.created.tags
              ∙ contains-new_volume_tags (vendor.to_string new.volume_id) req.name
                  (driver.name <> "@" <> driver.version) driver.cluster_tag))

  run_again_of_new :
      (s s' : S) (vol : Volume) (new : IsNew lawful driver req pool sr s vol s') (l : List Vdi)
      → keep (has_tag (build_tag vdi_tag_key_pv_name req.name)) (view.vdis s) ≡ []
      → (list_named s').0 ≡ ok l
      → run s' ≡ (ok vol, s')
  run_again_of_new s s' vol new l fresh e =
      run_of_one s' new.vdi (e ∙ ap ok (listed_after_new s s' vol new l fresh e))
      ∙ existing_volume_of_new new.vdi _ new.volume_id (list_named s').1 new.created.size (
          ap (λ tags. parse_tag_value tags vdi_tag_key_volume_id) new.created.tags
          ∙ (parse_tag_value-new_volume_tags (vendor.to_string new.volume_id) req.name
              (driver.name <> "@" <> driver.version) driver.cluster_tag).0)
      ∙ (λ i. (
        ok (sym new.answer i),
        lawful.reads.vdi_get_all 2 (build_tag_filter vdi_tag_key_pv_name req.name) s' i,
      ))

  run_of_many :
      (s : S) (v w : Vdi) (l : List Vdi)
      → (list_named s).0 ≡ ok (v ∷ w ∷ l)
      → (run s).0 ≡ err internal
  unfolding create_in find_vdi_by_volume_name check
  run_of_many s v w l e = rw e

  run_of_err : (s : S) (x : String) → (list_named s).0 ≡ err x → (run s).0 ≡ err internal
  unfolding create_in find_vdi_by_volume_name check
  run_of_err s x e = rw e

  run_of_panic : (s : S) → (list_named s).0 ≡ panic → (run s).0 ≡ panic
  unfolding create_in find_vdi_by_volume_name check
  run_of_panic s e = rw e

  existing_volume-world :
      (vdi : Vdi) (text : String) (t : S) → (existing_volume vendor req pool sr vdi text t).1 ≡ t
  unfolding existing_volume
  existing_volume-world vdi text t = ground arith

  -- A listing by the PV name leaves the world as it is.
  listed-world : (s : S) → (list_named s).1 ≡ s
  listed-world s = lawful.reads.vdi_get_all 2 (build_tag_filter vdi_tag_key_pv_name req.name) s

  run_again :
      (s s' : S) (vol : Volume) (r : Result String (List Vdi)) (l : List Vdi)
      → (list_named s).0 ≡ r
      → run s ≡ (ok vol, s')
      → (list_named s').0 ≡ ok l
      → run s' ≡ (ok vol, s')
  run_again s s' vol (ok []) l listed h e =
      let new = new_volume-IsNew lawful driver req pool sr s s' vol (
        subst (λ t. new_volume lib vendor driver req pool sr t ≡ (ok vol, s')) (listed-world s)
          (sym (run_of_none s listed) ∙ h)) in
      run_again_of_new s s' vol new l
        (at_most_two-eq_nil _ (sym (lawful.vdis_by_tag vdi_tag_key_pv_name req.name s [] listed))) e
  run_again s s' vol (ok (v ∷ [])) l listed h e =
      let unchanged : s' ≡ s =
        ap (λ (p : Result Code Volume × S). p.1) (sym h ∙ run_of_one s v listed)
        ∙ existing_volume-world v _ (list_named s).1
        ∙ listed-world s in
      subst (λ t. run t ≡ (ok vol, s')) (sym unchanged) h
  run_again s s' vol (ok (v ∷ w ∷ vs)) l listed h e = cc (run_of_many s v w vs listed)
  run_again s s' vol (err x) l listed h e = cc (run_of_err s x listed)
  run_again s s' vol panic l listed h e = cc (run_of_panic s listed)

  -- After a creation that returned a volume, whether it was new or there before, the same request in
  -- the same pool and SR returns the same volume and changes nothing, if the VDIs can be listed.
  pub create_in_again :
      (s s' : S) (vol : Volume) (l : List Vdi)
      → create_in lib vendor driver req pool sr s ≡ (ok vol, s')
      → (lib.vdi_get_all 2 (build_tag_filter vdi_tag_key_pv_name req.name) s').0 ≡ ok l
      → create_in lib vendor driver req pool sr s' ≡ (ok vol, s')
  create_in_again s s' vol l h e = run_again s s' vol (list_named s).0 l refl h e
