-- ===== src/Controller/Lifecycle.antt =====
-- A volume that is created and deleted (pkg/xenorchestra-csi/controllerserver.go).
use xenorchestra_csi_driver.Base.{
  String, false, not, List, [], ◌∷◌, ◌++◌, keep, any, Result, ok, check, ◌≡◌, ◌≢◌, refl, ◌∙◌, sym,
  ap, subst, arith, ◌==◌, nat_eq, string_eq, option_eq, ◌<>◌, Bool-cases, inl, inr,
}
use xenorchestra_csi_driver.Payloads.{Uuid, Vdi, Vbd, Pool, StorageRepository}
use xenorchestra_csi_driver.Errors.{Code}
use xenorchestra_csi_driver.Library.{Library, Vendor}
use xenorchestra_csi_driver.Library.Documented.{IsDocumented}
use xenorchestra_csi_driver.Csi.{CreateVolumeRequest, Driver, Volume}
use xenorchestra_csi_driver.Tags.{build_tag, vdi_tag_key_volume_id, vdi_tag_key_pv_name}
use xenorchestra_csi_driver.World.{View, IsLawful, has_tag, is_of_vdi}
use xenorchestra_csi_driver.World.Orderly.{IsOrderly}
use xenorchestra_csi_driver.XoClient.{build_tag_filter, is_vdi_used_anywhere, get_vdi_by_volume_id}
use xenorchestra_csi_driver.World.Keeps.{>>=-eq_ok_of_read, of_result-world}
use xenorchestra_csi_driver.World.Agrees.{SamePools-refl}
use xenorchestra_csi_driver.Controller.Create.{
  create_guards, storage_type_of, new_volume, create_volume,
}
use xenorchestra_csi_driver.Controller.Create.Again.{run_of_none}
use xenorchestra_csi_driver.Controller.Create.Choices.{resolve_pool-Agrees, local_sr_of_pool-Agrees}
use xenorchestra_csi_driver.Controller.Create.New.{IsNew, new_volume-IsNew}
use xenorchestra_csi_driver.Controller.Create.Found.{get_vdi_by_volume_id_of_new}
use xenorchestra_csi_driver.Controller.Volumes.{any_attached, delete_vdi, delete_volume}

-- The calls that a deletion makes come back with a result.
pub record CanDelete {S : Type 0} (lib : Library S) (vendor : Vendor) (volume_id : String) (s : S)
    : Type 0 where
  pub vdis : List Vdi
  pub listed : (lib.vdi_get_all 2 (build_tag_filter vdi_tag_key_volume_id volume_id) s).0 ≡ ok vdis
  pub vbds : Uuid → List Vbd
  pub used : (id : Uuid) → (lib.vbd_get_all 0 ("VDI:" <> vendor.to_string id) s).0 ≡ ok (vbds id)
  pub deleted : (id : Uuid) → (lib.vdi_delete id s).0 ≡ ok tt

-- What is added under a new ID and then taken out.
keep-append_one :
    (id : Uuid) (l : List Vdi) (v : Vdi)
    → any (λ w. w.id == id) l ≡ false
    → v.id ≡ id
    → keep (λ w. not (w.id == id)) (l ++ v ∷ []) ≡ l
keep-append_one id [] v h e = ground arith
keep-append_one id (w ∷ l) v h e = ground (arith, keep-append_one id l v)

any_attached-keep_of_unused :
    (id : Uuid) (l : List Vbd)
    → any (is_of_vdi id) l ≡ false
    → any_attached (keep (is_of_vdi id) l) ≡ false
any_attached-keep_of_unused id [] h = refl
any_attached-keep_of_unused id (b ∷ l) h = ground (arith, any_attached-keep_of_unused id l)

module _ {S : Type 0} {lib : Library S} {vendor : Vendor} {view : View S}
    (lawful : IsLawful lib vendor view) (orderly : IsOrderly lib view) where
  delete_vdi_of_unused :
      (vdi : Vdi) (volume_id : String) (s : S)
      → CanDelete lib vendor volume_id s
      → any (is_of_vdi vdi.id) (view.vbds s) ≡ false
      → delete_vdi lib vendor vdi s ≡ (ok tt, (lib.vdi_delete vdi.id s).1)
  unfolding delete_vdi is_vdi_used_anywhere check
  delete_vdi_of_unused vdi volume_id s can unused =
      let free : any_attached (can.vbds vdi.id) ≡ false =
        ap any_attached (lawful.vbds_of_vdi vdi.id s (can.vbds vdi.id) (can.used vdi.id))
        ∙ any_attached-keep_of_unused vdi.id (view.vbds s) unused in
      let same = lawful.reads.vbd_get_all 0 ("VDI:" <> vendor.to_string vdi.id) s in
      rw (can.used vdi.id, same, free, can.deleted vdi.id) refl

  delete_volume_of_found :
      (volume_id : String) (vdi : Vdi) (s : S)
      → volume_id ≢ ""
      → get_vdi_by_volume_id lib vendor volume_id s ≡ (ok vdi, s)
      → delete_volume lib vendor volume_id s ≡ delete_vdi lib vendor vdi s
  unfolding delete_volume check
  delete_volume_of_found volume_id vdi s named found = elim (Bool-cases (volume_id == "")) [
    | inl empty ↦ absurd (named (ground arith))
    | inr given ↦ rw (given, found) refl
  ]

  module _ (documented : IsDocumented vendor) (driver : Driver) (req : CreateVolumeRequest) where
    -- A creation that found no VDI of the name, taken apart.
    create_volume-IsNew :
        (s t : S) (vol : Volume)
        → create_volume lib vendor driver req s ≡ (ok vol, t)
        → (lib.vdi_get_all 2 (build_tag_filter vdi_tag_key_pv_name req.name) s).0 ≡ ok []
        → (pool : Pool) × (sr : StorageRepository) × IsNew lawful driver req pool sr s vol t
    unfolding create_volume
    create_volume-IsNew s t vol h none_named =
        let (_, _, h1) = >>=-eq_ok_of_read _ _ s (of_result-world _ (create_guards req) s) h in
        let resolving = resolve_pool-Agrees lib vendor driver lawful.reads (SamePools-refl s) req in
        let (chosen, _, h2) = >>=-eq_ok_of_read _ _ s resolving.first h1 in
        let placing =
          local_sr_of_pool-Agrees lib vendor driver lawful.reads (SamePools-refl s)
            (storage_type_of req.parameters) chosen.0 chosen.1 in
        let (sr, _, h3) = >>=-eq_ok_of_read _ _ s placing.first h2 in
        (
          chosen.0,
          sr,
          new_volume-IsNew lawful driver req chosen.0 sr s t vol (
              subst (λ u. new_volume lib vendor driver req chosen.0 sr u ≡ (ok vol, t))
                (lawful.reads.vdi_get_all 2 _ s)
                (sym (run_of_none documented lawful driver req chosen.0 sr s none_named) ∙ h3)),
        )

    -- A volume that was created, as the first of its name and its ID, can be deleted by the ID that was
    -- returned, and then the VDIs are those that there were before, if the calls that a deletion makes
    -- come back with a result.
    pub delete_volume-create_volume :
        (s t : S) (vol : Volume)
        → create_volume lib vendor driver req s ≡ (ok vol, t)
        → (lib.vdi_get_all 2 (build_tag_filter vdi_tag_key_pv_name req.name) s).0 ≡ ok []
        → any (has_tag (build_tag vdi_tag_key_volume_id vol.volume_id)) (view.vdis s) ≡ false
        → CanDelete lib vendor vol.volume_id t
        → ((delete_volume lib vendor vol.volume_id t).0 ≡ ok tt)
          × (view.vdis (delete_volume lib vendor vol.volume_id t).1 ≡ view.vdis s)
    delete_volume-create_volume s t vol h none_named fresh can =
        let (pool, sr, new) = create_volume-IsNew s t vol h none_named in
        let id = new.vdi.id in
        let (apart, unnamed) = orderly.vdi_create_fresh _ s new.new_id new.inserted in
        let same_id = new.created.same_id in
        let unused : any (is_of_vdi id) (view.vbds t) ≡ false =
          ap (λ l. any (is_of_vdi id) l) (ap view.vbds new.world ∙ orderly.vbds-vdi_create _ s)
          ∙ ap (λ v. any (is_of_vdi v) (view.vbds s)) same_id
          ∙ unnamed in
        let named : vol.volume_id ≢ "" =
          subst (λ (w : Volume). w.volume_id ≢ "") (sym new.answer)
            (documented.to_string-ne-empty new.volume_id) in
        let ran : delete_volume lib vendor vol.volume_id t ≡ (ok tt, (lib.vdi_delete id t).1) =
          delete_volume_of_found vol.volume_id new.vdi t named (
            get_vdi_by_volume_id_of_new lawful driver req pool sr s t vol can.vdis new fresh
              can.listed)
          ∙ delete_vdi_of_unused new.vdi vol.volume_id t can unused in
        (
          ap (λ (r : Result Code (Unit {0}) × S). r.0) ran,
          ap (λ (r : Result Code (Unit {0}) × S). view.vdis r.1) ran
              ∙ orderly.vdis-vdi_deleted id t (can.deleted id)
              ∙ ap (keep (λ w. not (w.id == id))) new.added
              ∙ keep-append_one id (view.vdis s) new.vdi
                  (ap (λ v. any (λ w. w.id == v) (view.vdis s)) same_id ∙ apart) refl,
        )
