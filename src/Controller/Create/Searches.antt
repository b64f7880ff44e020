-- ===== src/Controller/Create/Searches.antt =====
-- The search of `CreateVolume` for a pool and an SR only reads.
use xenorchestra_csi_driver.Base.{
  String, Option, none, some, List, [], ◌∷◌, Result, ok, err, panic, refl, ◌==◌, nat_eq, string_eq,
  arith,
}
use xenorchestra_csi_driver.Payloads.{Uuid, uuid_nil, Pool, StorageRepository}
use xenorchestra_csi_driver.Errors.{Error, errors_is, err_no_pool_in_topology}
use xenorchestra_csi_driver.Library.{Library, Vendor}
use xenorchestra_csi_driver.Csi.{CreateVolumeRequest, Driver, TopologyRequirement}
use xenorchestra_csi_driver.Constants.{storage_type_local}
use xenorchestra_csi_driver.World.{ListsOnly}
use xenorchestra_csi_driver.World.Keeps.{
  Keeps, Keeps-pure, Keeps-fail, Keeps-if, Keeps-of_read, Keeps-check, Keeps-map_err,
}
use xenorchestra_csi_driver.Topology.{
  try_pool, select_pool_and_storage, tagged_pool_ids, ordered_pool_ids,
}
use xenorchestra_csi_driver.XoClient.{find_local_srs_for_pool}
use xenorchestra_csi_driver.Controller.Create.{
  pool_by_id, pool_by_topology, pools_by_tag, candidate_pools, resolve_pool, explicit_pool,
  local_sr_of_pool,
}

module _ {S : Type 0} (lib : Library S) (vendor : Vendor) (driver : Driver) {P : S → Type 0}
    (reads : ListsOnly lib) where
  select_pool_and_storage-Keeps : (ids : List Uuid) → Keeps P (select_pool_and_storage lib ids)
  unfolding select_pool_and_storage try_pool
  select_pool_and_storage-Keeps [] = Keeps-fail _
  select_pool_and_storage-Keeps (id ∷ ids) =
      let rest = select_pool_and_storage-Keeps ids in
      Keeps-check _ _ _ (Keeps-of_read (lib.pool_get id) (reads.pool_get id)) (λ _. rest)
        (λ pool.
          Keeps-if (pool.default_sr == uuid_nil) _ _ (λ _. rest)
            (λ _.
              Keeps-check _ _ _
                (Keeps-of_read (lib.sr_get pool.default_sr) (reads.sr_get pool.default_sr))
                (λ _. rest)
                (λ sr. Keeps-if sr.in_maintenance_mode _ _ (λ _. rest) (λ _. Keeps-pure _))))

  pools_by_tag-Keeps : Keeps P (pools_by_tag lib vendor driver)
  unfolding pools_by_tag tagged_pool_ids
  pools_by_tag-Keeps =
      Keeps-check _ _ _
        (Keeps-map_err _ _ (
          Keeps-check _ _ _
            (Keeps-map_err _ _ (Keeps-of_read (lib.pool_get_all 0 _) (reads.pool_get_all 0 _)))
            Keeps-fail (λ _. Keeps-pure _)))
        Keeps-fail (λ ids. Keeps-of_read _ (λ s. ground arith))

  candidate_pools-Keeps :
      (r : Result Error (List Uuid)) → Keeps P (candidate_pools lib vendor driver r)
  unfolding candidate_pools
  candidate_pools-Keeps (ok ids) = Keeps-pure ids
  candidate_pools-Keeps (err e) =
      Keeps-if (errors_is e err_no_pool_in_topology) _ _ (λ _. pools_by_tag-Keeps)
        (λ _. Keeps-fail _)
  candidate_pools-Keeps panic = Keeps-of_read _ (λ s. refl)

  pool_by_topology-Keeps :
      (ar : Option TopologyRequirement) → Keeps P (pool_by_topology lib vendor driver ar)
  unfolding pool_by_topology
  pool_by_topology-Keeps ar =
      Keeps-check _ _ _ (candidate_pools-Keeps (ordered_pool_ids vendor ar)) Keeps-fail
        (λ ids. Keeps-map_err _ _ (select_pool_and_storage-Keeps ids))

  pool_by_id-Keeps :
      (id : Option Uuid) (ar : Option TopologyRequirement)
      → Keeps P (pool_by_id lib vendor driver id ar)
  unfolding pool_by_id
  pool_by_id-Keeps none ar = Keeps-fail _
  pool_by_id-Keeps (some id) ar =
      Keeps-check _ _ _ (Keeps-of_read _ (λ s. ground arith)) Keeps-fail (λ _.
        Keeps-check _ _ _ (Keeps-of_read _ (λ s. ground arith)) Keeps-fail
          (λ _. Keeps-map_err _ _ (select_pool_and_storage-Keeps (id ∷ []))))

  pub resolve_pool-Keeps :
      (req : CreateVolumeRequest) → Keeps P (resolve_pool lib vendor driver req)
  unfolding resolve_pool
  resolve_pool-Keeps req = go (explicit_pool req.parameters)
    where
      go :
          (o : Option String)
          → Keeps P (elim o [
            | some pool_id ↦
                pool_by_id lib vendor driver
                  (vendor.from_string pool_id)
                  req.accessibility_requirements
            | none ↦ pool_by_topology lib vendor driver req.accessibility_requirements
          ])
      go (some pool_id) = pool_by_id-Keeps _ _
      go none = pool_by_topology-Keeps _

  pub local_sr_of_pool-Keeps :
      (t : String) (pool : Pool) (sr : StorageRepository)
      → Keeps P (local_sr_of_pool lib vendor driver t pool sr)
  unfolding local_sr_of_pool find_local_srs_for_pool
  local_sr_of_pool-Keeps t pool sr =
      Keeps-if (t == storage_type_local) _ _
        (λ _.
          Keeps-check _ _ _
            (Keeps-map_err _ _ (
              Keeps-check _ _ _
                (Keeps-map_err _ _ (Keeps-of_read (lib.sr_get_all 0 _) (reads.sr_get_all 0 _)))
                Keeps-fail (λ _. Keeps-of_read _ (λ s. ground arith))))
            Keeps-fail (λ _. Keeps-of_read _ (λ s. ground arith)))
        (λ _. Keeps-pure sr)
