-- ===== src/Controller/Publish/Moving.antt =====
-- Where a publication finds the VDI of a volume on local storage: it may be migrated first
-- (pkg/xenorchestra-csi/controllerserver.go).
use xenorchestra_csi_driver.Base.{
  ◌<>◌, ◌≢◌, String, Bool, false, [], ◌∷◌, Exec, check, fail, ◌∙◌, true, List, Result, ok, pure,
  map_err, ◌>>=◌, StringMap, value_at, ◌≡◌, inl, inr, ◌==◌, nat_eq, string_eq, sym, subst, ap,
  arith, Bool-cases, ok-injective, >>=-eq_ok, if◌then◌else◌,
}
use xenorchestra_csi_driver.Payloads.{Uuid, Vdi, Vbd, Vm, StorageRepository}
use xenorchestra_csi_driver.Errors.{Code, Error, internal, message}
use xenorchestra_csi_driver.Constants.{storage_type_local, volume_context_key_storage_type}
use xenorchestra_csi_driver.Csi.{Driver}
use xenorchestra_csi_driver.Library.{Library, Vendor}
use xenorchestra_csi_driver.World.{View, IsLawful}
use xenorchestra_csi_driver.World.Keeps.{
  Keeps, Keeps-pure, Keeps-fail, Keeps-if, Keeps-of_read, Keeps-check, Keeps-map_err, map_err-eq_ok,
  map_err-world, >>=-eq_ok_of_read,
}
use xenorchestra_csi_driver.XoClient.{find_local_sr_for_host, migrate_vdi_and_wait}
use xenorchestra_csi_driver.XoClient.Storage.Migration.{
  IsFinished, migrate_vdi_and_wait-Keeps, migrate_vdi_and_wait-IsFinished,
}
use xenorchestra_csi_driver.Controller.Publish.{move_to_host}
use xenorchestra_csi_driver.Controller.Publish.Steps.{Of, add_tag-Keeps}

-- The first user SR that is not shared, not in maintenance and connected on the host.
abbrev local_filter : Vendor → Uuid → String
local_filter vendor host =
    "content_type:user !shared? !inMaintenanceMode? $PBDs:length:>=1 $container:"
    <> vendor.to_string host

module _ {S : Type 0} (lib : Library S) (vendor : Vendor) (context : StringMap) (host : Uuid) where
  abbrev pub is_local : Bool
  is_local = value_at volume_context_key_storage_type context == storage_type_local

  -- The first local SR of the host, as Xen Orchestra lists it in the world `before`.
  pub record IsLocalSr (before : S) (sr : StorageRepository) : Type 0 where
    pub others : List StorageRepository
    pub listed : (lib.sr_get_all 1 (local_filter vendor host) before).0 ≡ ok (sr ∷ others)

  -- From the world `before` the VDI was migrated to the local SR of the host, its task reported an ID,
  -- and `placed` is what is read under that ID right after the migration.
  pub record IsMigrated (vdi placed : Vdi) (before : S) : Type 0 where
    pub sr : StorageRepository
    pub chosen : IsLocalSr before sr
    pub elsewhere : vdi.sr ≢ sr.id
    pub new : Uuid
    pub after : S
    pub finished : IsFinished lib vdi sr.id new before after
    pub fetched : (lib.vdi_get new after).0 ≡ ok placed

  -- The VDI of the volume, which may stay where it is, or what it became on the host's local SR.
  pub data IsPlaced (vdi placed : Vdi) (before : S) : Type 0 where
    shared : is_local ≡ false → placed ≡ vdi → IsPlaced vdi placed before
    there :
        is_local ≡ true
        → (sr : StorageRepository) → IsLocalSr before sr
        → vdi.sr ≡ sr.id
        → placed ≡ vdi
        → IsPlaced vdi placed before
    migrated : is_local ≡ true → IsMigrated vdi placed before → IsPlaced vdi placed before

module _ {S : Type 0} {lib : Library S} {vendor : Vendor} {view : View S}
    (lawful : IsLawful lib vendor view) (P : List Vbd → Type 0) (driver : Driver)
    (migrating : (id sr : Uuid) → Keeps (Of lawful P) (lib.vdi_migrate id sr)) where
  pub moving-Keeps :
      (context : StringMap) (vm : Vm) (vdi : Vdi)
      → Keeps (Of lawful P) (move_to_host lib vendor driver context vm vdi)
  unfolding move_to_host find_local_sr_for_host
  moving-Keeps context vm vdi =
      Keeps-if (value_at volume_context_key_storage_type context == storage_type_local) _ _
        (λ _.
          Keeps-check _ _ _
            (Keeps-map_err _ _ (
              Keeps-check _ _ _
                (Keeps-map_err _ _
                  (Keeps-of_read (lib.sr_get_all 1 _) (lawful.reads.sr_get_all 1 _)))
                Keeps-fail (λ srs. Keeps-of_read _ (λ s. ground arith))))
            Keeps-fail
            (λ local_sr.
              Keeps-if (vdi.sr == local_sr.id) _ _ (λ _. Keeps-pure vdi)
                (λ _.
                  Keeps-check _ _ _
                    (Keeps-map_err _ _ (
                      migrate_vdi_and_wait-Keeps lib (add_tag-Keeps lawful P) vdi local_sr.id
                        (migrating vdi.id local_sr.id)
                        (λ task_id. record {
                          at = λ s h. subst P (sym (lawful.vbds-wait task_id s)) h;
                        })))
                    Keeps-fail
                    (λ id.
                      Keeps-map_err _ _
                        (Keeps-of_read (lib.vdi_get id) (lawful.reads.vdi_get id))))))
        (λ _. Keeps-pure vdi)

module _ {S : Type 0} {lib : Library S} {vendor : Vendor} {view : View S}
    (lawful : IsLawful lib vendor view) (driver : Driver) (context : StringMap) (vm : Vm)
    (vdi placed : Vdi) where
  find-world : (s : S) → (find_local_sr_for_host lib vendor vm.container s).1 ≡ s
  unfolding find_local_sr_for_host check
  find-world s =
      let same = lawful.reads.sr_get_all 1 (local_filter vendor vm.container) s in
      ground (arith, same)

  find-IsLocalSr :
      (sr : StorageRepository) (s : S)
      → (find_local_sr_for_host lib vendor vm.container s).0 ≡ ok sr
      → IsLocalSr lib vendor context vm.container s sr
  unfolding find_local_sr_for_host
  find-IsLocalSr sr s h =
      let (srs, e, rest) =
        >>=-eq_ok _ _ s (λ i. (h i, (find_local_sr_for_host lib vendor vm.container s).1)) in
      first srs _ _ (map_err-eq_ok _ _ s srs e) rest
    where
      first :
          (srs : List StorageRepository) (u t : S)
          → (lib.sr_get_all 1 (local_filter vendor vm.container) s).0 ≡ ok srs
          → (elim srs as (λ _. Exec S Error StorageRepository) [
            | [] ↦ fail message
            | x ∷ _ ↦ pure x
          ])
              u
            ≡ (ok sr, t)
          → IsLocalSr lib vendor context vm.container s sr
      first [] u t e h = cc
      first (x ∷ others) u t e h =
          let same : x ≡ sr =
            ok-injective (ap (λ (r : Result Error StorageRepository × S). r.0) h) in
          record { others = others; listed = e ∙ ap (λ y. ok (y ∷ others)) same }

  -- What follows the choice of the local SR.
  there_or_migrated :
      (sr : StorageRepository) (s t : S)
      → is_local lib vendor context vm.container ≡ true
      → IsLocalSr lib vendor context vm.container s sr
      → (if vdi.sr == sr.id then pure vdi else (do
        new_vdi_uuid ← map_err {F = Code} (λ _. internal) (migrate_vdi_and_wait lib vdi sr.id)
        map_err (λ _. internal) (lib.vdi_get new_vdi_uuid)))
          s
        ≡ (ok placed, t)
      → IsPlaced lib vendor context vm.container vdi placed s
  there_or_migrated sr s t local chosen h = elim (Bool-cases (vdi.sr == sr.id)) [
    | inl here ↦
        let e : ◌≡◌ {A = Result Code Vdi × S} (ok vdi, s) (ok placed, t) = rw here at h in
        there local sr chosen (ground (arith, here))
          (sym (ok-injective (ap (λ (r : Result Code Vdi × S). r.0) e)))
    | inr away ↦
        let (new, moved, got) = >>=-eq_ok _ _ s (rw away at h) in
        let same = map_err-world (λ _. internal) (migrate_vdi_and_wait lib vdi sr.id) s in
        let after = (migrate_vdi_and_wait lib vdi sr.id s).1 in
        let run = map_err-eq_ok (λ _. internal) (migrate_vdi_and_wait lib vdi sr.id) s new moved in
        let read =
          subst (λ u. map_err {F = Code} (λ _. internal) (lib.vdi_get new) u ≡ (ok placed, t)) same
            got in
        migrated local (record {
          sr = sr;
          chosen = chosen;
          elsewhere = λ e. absurd (ground (arith, away, e));
          new = new;
          after = after;
          finished =
              migrate_vdi_and_wait-IsFinished lib vdi sr.id new s after (λ i. (run i, after));
          fetched =
              map_err-eq_ok (λ _. internal) (lib.vdi_get new) after placed
                (ap (λ (r : Result Code Vdi × S). r.0) read);
        })
  ]

  pub move_to_host-IsPlaced :
      (s t : S)
      → move_to_host lib vendor driver context vm vdi s ≡ (ok placed, t)
      → IsPlaced lib vendor context vm.container vdi placed s
  unfolding move_to_host
  move_to_host-IsPlaced s t h = elim (Bool-cases (is_local lib vendor context vm.container)) [
    | inl local ↦
        let (sr, found, rest) =
          >>=-eq_ok_of_read _ _ s (map_err-world _ _ s ∙ find-world s) (rw local at h) in
        there_or_migrated sr s t local (find-IsLocalSr sr s (map_err-eq_ok _ _ s sr found)) rest
    | inr shared_storage ↦
        let e : ◌≡◌ {A = Result Code Vdi × S} (ok vdi, s) (ok placed, t) = rw shared_storage at h in
        shared shared_storage (sym (ok-injective (ap (λ (r : Result Code Vdi × S). r.0) e)))
  ]
