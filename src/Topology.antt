-- ===== src/Topology.antt =====
-- pkg/xenorchestra-csi/topology/pool_selector.go
pub mod Selection
pub mod Ordering
use xenorchestra_csi_driver.Base.{
  String, Bool, Option, none, some, List, [], ◌∷◌, ◌++◌, map, StringMap, lookup, Result, ok, err,
  panic, Exec, pure, fail, check, map_err, ◌>>=◌, ◌==◌, string_eq, nat_eq, if◌then◌else◌, ◌<>◌, any,
  option_eq,
}
use xenorchestra_csi_driver.Payloads.{Uuid, uuid_nil, Pool, StorageRepository}
use xenorchestra_csi_driver.Errors.{
  Error, sentinel, wrap, message, api, err_no_pool_in_topology, err_pool_not_viable,
}
use xenorchestra_csi_driver.Csi.{TopologyRequirement}
use xenorchestra_csi_driver.Library.{Library, Vendor}

abbrev pool_ids : List Pool → List Uuid
pool_ids = map (λ p. p.id)

unfoldable pub tagged_pool_ids : {S : Type 0} → Library S → String → Exec S Error (List Uuid)
tagged_pool_ids lib tag = do
  pools ← map_err (λ e. wrap (api e)) (lib.pool_get_all 0 ("tags:/^" <> tag <> "$/"))
  pure (pool_ids pools)

module _ (vendor : Vendor) where
  abbrev pool_uuid : Option Uuid → Result Error (List Uuid)
  pool_uuid none = err (wrap message)
  pool_uuid (some id) = if id == uuid_nil then err (wrap message) else ok (id ∷ [])

  unfoldable pub pool_uuid_from_topology : StringMap → Result Error (List Uuid)
  pool_uuid_from_topology topo = elim (lookup vendor.pool_label topo) [
    | none ↦ ok []
    | some v ↦ if v == "" then ok [] else pool_uuid (vendor.from_string v)
  ]

  -- `lo.Uniq(slices.Concat(preferred, requisite))`, unless both are empty.
  abbrev join_ids : List Uuid → List Uuid → Result Error (List Uuid)
  join_ids [] [] = err (sentinel err_no_pool_in_topology)
  join_ids preferred requisite = ok (vendor.uniq (preferred ++ requisite))

  abbrev pool_ids_of : List StringMap → Result Error (List Uuid)
  pool_ids_of topos = vendor.flat_map_err topos pool_uuid_from_topology

  unfoldable pub ordered_pool_ids : Option TopologyRequirement → Result Error (List Uuid)
  ordered_pool_ids none = err (sentinel err_no_pool_in_topology)
  ordered_pool_ids (some ar) = elim (pool_ids_of ar.preferred) [
    | err e ↦ err e
    | panic ↦ panic
    | ok preferred ↦ elim (pool_ids_of ar.requisite) [
      | err e ↦ err e
      | panic ↦ panic
      | ok requisite ↦ join_ids preferred requisite
    ]
  ]

  -- `v, ok := segments[label]; ok && v == id`
  abbrev has_pool : String → StringMap → Bool
  has_pool id topo = lookup vendor.pool_label topo == some id

  unfoldable pub validate_pool_id_against_requisite :
      Option TopologyRequirement → Uuid → Result Error (Unit {0})
  validate_pool_id_against_requisite none pool_id = ok tt
  validate_pool_id_against_requisite (some ar) pool_id = elim ar.requisite [
    | [] ↦ ok tt
    | topo ∷ topos ↦
        if any (has_pool (vendor.to_string pool_id)) (topo ∷ topos) then ok tt else err message
  ]

module _ {S : Type 0} (lib : Library S) where
  -- One round of the loop: the pool with its default SR if that can be used, or else `next`.
  unfoldable pub try_pool :
      Uuid → Exec S Error (Pool × StorageRepository) → Exec S Error (Pool × StorageRepository)
  try_pool pool_id next =
      check (lib.pool_get pool_id) (λ _. next)
        λ pool.
          if pool.default_sr == uuid_nil
          then next
          else check (lib.sr_get pool.default_sr) (λ _. next)
              (λ sr. if sr.in_maintenance_mode then next else pure (pool, sr))

  unfoldable pub select_pool_and_storage : List Uuid → Exec S Error (Pool × StorageRepository)
  select_pool_and_storage [] = fail (wrap (sentinel err_pool_not_viable))
  select_pool_and_storage (pool_id ∷ pool_ids) = try_pool pool_id (select_pool_and_storage pool_ids)
