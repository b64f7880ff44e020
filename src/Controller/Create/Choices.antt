-- ===== src/Controller/Create/Choices.antt =====
-- The search of `CreateVolume` for a pool and an SR finds the same in worlds whose pools and SRs are
-- the same (pkg/xenorchestra-csi/controllerserver.go).
use xenorchestra_csi_driver.Base.{
  String, Option, none, some, List, [], ◌∷◌, Exec, Result, ok, err, panic, pure, fail, crash, refl,
  ◌==◌, nat_eq, string_eq,
}
use xenorchestra_csi_driver.Payloads.{Uuid, uuid_nil, Pool, StorageRepository}
use xenorchestra_csi_driver.Errors.{
  Error, Code, message, failed_precondition, errors_is, err_no_pool_in_topology,
}
use xenorchestra_csi_driver.Library.{Library, Vendor}
use xenorchestra_csi_driver.Csi.{CreateVolumeRequest, Driver, TopologyRequirement}
use xenorchestra_csi_driver.Constants.{storage_type_local}
use xenorchestra_csi_driver.World.{ListsOnly}
use xenorchestra_csi_driver.World.Agrees.{
  Agrees, Agrees-pure, Agrees-fail, Agrees-if, Agrees-check, Agrees-map_err, Agrees-refuse_if,
  Agrees-of_result, SamePools, pool_get-Agrees, pool_get_all-Agrees, sr_get-Agrees,
  sr_get_all-Agrees,
}
use xenorchestra_csi_driver.Topology.{
  try_pool, select_pool_and_storage, tagged_pool_ids, ordered_pool_ids,
}
use xenorchestra_csi_driver.XoClient.{find_local_srs_for_pool}
use xenorchestra_csi_driver.Controller.Create.{
  pool_by_id, pool_by_topology, pools_by_tag, candidate_pools, resolve_pool, explicit_pool,
  local_sr_of_pool,
}

module _ {S : Type 0} (lib : Library S) (vendor : Vendor) (driver : Driver) (reads : ListsOnly lib)
    {s t : S} (same : SamePools lib s t) where
  select_pool_and_storage-Agrees : (ids : List Uuid) → Agrees s t (select_pool_and_storage lib ids)
  unfolding select_pool_and_storage try_pool
  select_pool_and_storage-Agrees [] = Agrees-fail _
  select_pool_and_storage-Agrees (id ∷ ids) =
      let rest = select_pool_and_storage-Agrees ids in
      Agrees-check _ _ (λ _. rest)
        (λ pool. Agrees-if (pool.default_sr == uuid_nil) _ _ rest (
          Agrees-check _ _ (λ _. rest)
            (λ sr. Agrees-if sr.in_maintenance_mode _ _ rest (Agrees-pure (pool, sr))) _
            (sr_get-Agrees reads same pool.default_sr)))
        _ (pool_get-Agrees reads same id)

  some_ids :
      (ids : List Uuid)
      → Agrees s t (elim ids as (λ _. Exec S Code (List Uuid)) [
        | [] ↦ fail failed_precondition
        | id ∷ more ↦ pure (id ∷ more)
      ])
  some_ids [] = Agrees-fail _
  some_ids (id ∷ more) = Agrees-pure _

  pools_by_tag-Agrees : Agrees s t (pools_by_tag lib vendor driver)
  unfolding pools_by_tag tagged_pool_ids
  pools_by_tag-Agrees = Agrees-check _ _ Agrees-fail some_ids _ (
      Agrees-map_err _ _ (
        Agrees-check _ _ Agrees-fail (λ _. Agrees-pure _) _
          (Agrees-map_err _ _ (pool_get_all-Agrees reads same 0 _))))

  candidate_pools-Agrees :
      (r : Result Error (List Uuid)) → Agrees s t (candidate_pools lib vendor driver r)
  unfolding candidate_pools
  candidate_pools-Agrees (ok ids) = Agrees-pure ids
  candidate_pools-Agrees (err e) =
      Agrees-if (errors_is e err_no_pool_in_topology) _ _ pools_by_tag-Agrees (Agrees-fail _)
  candidate_pools-Agrees panic = record { result = refl; first = refl; second = refl }

  pool_by_topology-Agrees :
      (ar : Option TopologyRequirement) → Agrees s t (pool_by_topology lib vendor driver ar)
  unfolding pool_by_topology
  pool_by_topology-Agrees ar =
      Agrees-check _ _ Agrees-fail (λ ids. Agrees-map_err _ _ (select_pool_and_storage-Agrees ids))
        _ (candidate_pools-Agrees (ordered_pool_ids vendor ar))

  pool_by_id-Agrees :
      (id : Option Uuid) (ar : Option TopologyRequirement)
      → Agrees s t (pool_by_id lib vendor driver id ar)
  unfolding pool_by_id
  pool_by_id-Agrees none ar = Agrees-fail _
  pool_by_id-Agrees (some id) ar =
      Agrees-check _ _ Agrees-fail
        (λ _.
          Agrees-check _ _ Agrees-fail
            (λ _. Agrees-map_err _ _ (select_pool_and_storage-Agrees (id ∷ []))) _
            (Agrees-of_result _ _))
        _ (Agrees-refuse_if _ _)

  pub resolve_pool-Agrees :
      (req : CreateVolumeRequest) → Agrees s t (resolve_pool lib vendor driver req)
  unfolding resolve_pool
  resolve_pool-Agrees req = go (explicit_pool req.parameters)
    where
      go :
          (o : Option String)
          → Agrees s t (elim o [
            | some pool_id ↦
                pool_by_id lib vendor driver
                  (vendor.from_string pool_id)
                  req.accessibility_requirements
            | none ↦ pool_by_topology lib vendor driver req.accessibility_requirements
          ])
      go (some pool_id) = pool_by_id-Agrees _ _
      go none = pool_by_topology-Agrees _

  some_srs :
      (srs : List StorageRepository)
      → Agrees s t (elim srs as (λ _. Exec S Error (List StorageRepository)) [
        | [] ↦ fail message
        | sr ∷ others ↦ pure (sr ∷ others)
      ])
  some_srs [] = Agrees-fail _
  some_srs (sr ∷ others) = Agrees-pure _

  first_sr :
      (srs : List StorageRepository)
      → Agrees s t
          (elim srs as (λ _. Exec S Code StorageRepository) [ [] ↦ crash | first ∷ _ ↦ pure first ])
  first_sr [] = record { result = refl; first = refl; second = refl }
  first_sr (sr ∷ others) = Agrees-pure _

  pub local_sr_of_pool-Agrees :
      (storage_type : String) (pool : Pool) (sr : StorageRepository)
      → Agrees s t (local_sr_of_pool lib vendor driver storage_type pool sr)
  unfolding local_sr_of_pool find_local_srs_for_pool
  local_sr_of_pool-Agrees storage_type pool sr =
      Agrees-if (storage_type == storage_type_local) _ _
        (Agrees-check _ _ Agrees-fail first_sr _ (
          Agrees-map_err _ _ (
            Agrees-check _ _ Agrees-fail some_srs _
              (Agrees-map_err _ _ (sr_get_all-Agrees reads same 0 _)))))
        (Agrees-pure sr)
