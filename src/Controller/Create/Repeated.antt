-- ===== src/Controller/Create/Repeated.antt =====
-- `CreateVolume` as a whole is idempotent, the choice of the pool and the SR included
-- (pkg/xenorchestra-csi/controllerserver.go).
use xenorchestra_csi_driver.Base.{
  List, Exec, Result, ok, fail, check, ◌>>=◌, ◌≡◌, ◌∙◌, sym, ap, subst,
}
use xenorchestra_csi_driver.Payloads.{Vdi}
use xenorchestra_csi_driver.Errors.{Code}
use xenorchestra_csi_driver.Library.{Library, Vendor}
use xenorchestra_csi_driver.Library.Documented.{IsDocumented}
use xenorchestra_csi_driver.Csi.{CreateVolumeRequest, Driver, Volume}
use xenorchestra_csi_driver.Tags.{vdi_tag_key_pv_name}
use xenorchestra_csi_driver.World.{View, IsLawful}
use xenorchestra_csi_driver.World.Keeps.{>>=-eq_ok_of_read, of_result-world}
use xenorchestra_csi_driver.World.Agrees.{
  Agrees, Agrees-of_result, SamePools, SamePools-refl, SamePools-trans, IsApart,
}
use xenorchestra_csi_driver.XoClient.{build_tag_filter}
use xenorchestra_csi_driver.Controller.Create.{create_guards, create_volume, storage_type_of}
use xenorchestra_csi_driver.Controller.Create.Again.{create_in_again}
use xenorchestra_csi_driver.Controller.Create.Choices.{resolve_pool-Agrees, local_sr_of_pool-Agrees}
use xenorchestra_csi_driver.Controller.Create.Invariants.{create_in-Keeps}

-- A step that read a value in one world reads it in the other.
step_again :
    {S E A B : Type 0} {s t : S} (m : Exec S E A) (k : A → Exec S E B) (a : A)
    → Agrees s t m
    → (m s).0 ≡ ok a
    → (m >>= k) t ≡ k a t
unfolding check
step_again {s = s} {t = t} m k a agrees h =
    ap (λ r. check (λ _. r) fail k t) (λ i. ((sym agrees.result ∙ h) i, agrees.second i))

module _ {S : Type 0} {lib : Library S} {vendor : Vendor} {view : View S}
    (documented : IsDocumented vendor) (lawful : IsLawful lib vendor view) (is_apart : IsApart lib)
    (driver : Driver) where
  -- After a `CreateVolume` that returned a volume, the same request returns the same volume and changes
  -- nothing, however its pool and SR are chosen and on whatever storage, if the VDIs can be listed.
  pub create_volume_again :
      (req : CreateVolumeRequest) (s t : S) (vol : Volume) (l : List Vdi)
      → create_volume lib vendor driver req s ≡ (ok vol, t)
      → (lib.vdi_get_all 2 (build_tag_filter vdi_tag_key_pv_name req.name) t).0 ≡ ok l
      → create_volume lib vendor driver req t ≡ (ok vol, t)
  unfolding create_volume
  create_volume_again req s t vol l h listed =
      let (_, allowed, h1) = >>=-eq_ok_of_read _ _ s (of_result-world _ (create_guards req) s) h in
      let resolving = resolve_pool-Agrees lib vendor driver lawful.reads (SamePools-refl s) req in
      let (chosen, resolved, h2) = >>=-eq_ok_of_read _ _ s resolving.first h1 in
      let placing =
        local_sr_of_pool-Agrees lib vendor driver lawful.reads (SamePools-refl s)
          (storage_type_of req.parameters) chosen.0 chosen.1 in
      let (sr, placed, h3) = >>=-eq_ok_of_read _ _ s placing.first h2 in
      let same : SamePools lib s t =
        subst (SamePools lib s) (ap (λ (r : Result Code Volume × S). r.1) h3) (
          (create_in-Keeps lib vendor driver {P = SamePools lib s} lawful.reads
              (λ params. record { at = λ u p. SamePools-trans p (is_apart.vdi_create params u) })
              req chosen.0 sr).at
            s (SamePools-refl s)) in
      step_again _ _ tt (Agrees-of_result _ (create_guards req)) allowed
      ∙ step_again _ _ chosen (resolve_pool-Agrees lib vendor driver lawful.reads same req) resolved
      ∙ step_again _ _ sr
          (local_sr_of_pool-Agrees lib vendor driver lawful.reads same
            (storage_type_of req.parameters) chosen.0 chosen.1)
          placed
      ∙ create_in_again documented lawful driver req chosen.0 sr s t vol l h3 listed
