-- ===== src/Controller/Create.antt =====
-- `CreateVolume` of pkg/xenorchestra-csi/controllerserver.go.
pub mod Guards
pub mod New
pub mod Found
pub mod Searches
pub mod Adds
pub mod Again
pub mod Choices
pub mod Invariants
pub mod Repeated
use xenorchestra_csi_driver.Base.{
  String, Bool, false, not, ◌||◌, Option, none, some, List, [], ◌∷◌, StringMap, lookup, value_at,
  Result, ok, err, panic, Exec, pure, fail, crash, check, map_err, refuse_if, of_result, ◌>>=◌,
  ◌>>◌, ◌==◌, string_eq, nat_eq, if◌then◌else◌, ◌<>◌, is_err,
}
use xenorchestra_csi_driver.Payloads.{
  Uuid, uuid_nil, ℤ, pos, is_nonpositive, eq_ℤ, Vdi, Pool, StorageRepository,
}
use xenorchestra_csi_driver.Errors.{
  Error, Code, invalid_argument, already_exists, failed_precondition, resource_exhausted, internal,
  errors_is, err_volume_not_found, err_no_pool_in_topology,
}
use xenorchestra_csi_driver.Constants.{
  parameter_pool_id, volume_context_key_sr_id, volume_context_key_sr_name,
  volume_context_key_pool_id, volume_context_key_pool_name, parameter_storage_type,
  storage_type_shared, storage_type_local, volume_context_key_storage_type,
}
use xenorchestra_csi_driver.Csi.{CreateVolumeRequest, Volume, Driver, TopologyRequirement}
use xenorchestra_csi_driver.Library.{Library, Vendor}
use xenorchestra_csi_driver.Capabilities.{validate_volume_capabilities}
use xenorchestra_csi_driver.Topology.{
  tagged_pool_ids, ordered_pool_ids, validate_pool_id_against_requisite, select_pool_and_storage,
}
use xenorchestra_csi_driver.XoClient.{
  find_vdi_by_volume_name, create_new_volume, find_local_srs_for_pool,
}

abbrev pub valid_storage_type : String → Bool
valid_storage_type storage_type =
    (storage_type == storage_type_shared) || (storage_type == storage_type_local)

-- The parameter, or "shared" if it is missing or empty.
abbrev pub storage_type_of : StringMap → String
storage_type_of params =
    let storage_type = value_at parameter_storage_type params in
    if storage_type == "" then storage_type_shared else storage_type

-- `GetRequiredBytes()`, or 0 without a capacity range.
abbrev pub capacity_bytes_of : Option ℤ → ℤ
capacity_bytes_of none = pos 0
capacity_bytes_of (some required) = required

abbrev pub bad_capacity : Option ℤ → Bool
bad_capacity none = false
bad_capacity (some required) = is_nonpositive required

-- The guards at the top, in order; nothing has been called yet.
unfoldable pub create_guards : CreateVolumeRequest → Result Code (Unit {0})
create_guards req =
    if req.name == ""
    then err invalid_argument
    else if req.has_content_source
    then err invalid_argument
    else if is_err (validate_volume_capabilities req.volume_capabilities)
    then err invalid_argument
    else if bad_capacity req.capacity_range
    then err invalid_argument
    else if not (valid_storage_type (storage_type_of req.parameters))
    then err invalid_argument
    else ok tt

module _ (vendor : Vendor) where
  unfoldable pub build_accessible_topology : Pool → List StringMap
  build_accessible_topology pool = ((vendor.pool_label, vendor.to_string pool.id) ∷ []) ∷ []

  unfoldable pub build_volume_context : Pool → StorageRepository → String → StringMap
  build_volume_context pool sr storage_type =
      (volume_context_key_sr_id, vendor.to_string sr.id)
      ∷ (volume_context_key_sr_name, sr.name_label)
      ∷ (volume_context_key_pool_id, vendor.to_string pool.id)
      ∷ (volume_context_key_pool_name, pool.name_label)
      ∷ (volume_context_key_storage_type, storage_type)
      ∷ []

  abbrev pub volume_for : CreateVolumeRequest → Pool → StorageRepository → String → Volume
  volume_for req pool sr volume_id = record {
    volume_id = volume_id;
    capacity_bytes = capacity_bytes_of req.capacity_range;
    accessible_topology = build_accessible_topology pool;
    volume_context = build_volume_context pool sr (storage_type_of req.parameters);
  }

  -- A VDI of the PV exists: the same volume again, if it has the size that is asked for.
  unfoldable pub existing_volume :
      {S : Type 0}
      → CreateVolumeRequest
      → Pool
      → StorageRepository
      → Vdi
      → String
      → Exec S Code Volume
  existing_volume req pool sr vdi existing_id =
      if not (eq_ℤ vdi.size (capacity_bytes_of req.capacity_range))
      then fail already_exists
      else if existing_id == ""
      then fail internal
      else pure (volume_for req pool sr existing_id)

-- The pool ID of the parameters, if it is there and not empty.
abbrev pub explicit_pool : StringMap → Option String
explicit_pool params = elim (lookup parameter_pool_id params) [
  | none ↦ none
  | some pool_id ↦ if pool_id == "" then none else some pool_id
]

module _ {S : Type 0} (lib : Library S) (vendor : Vendor) (driver : Driver) where
  -- Case 1: the storage class names the pool.
  pool_by_id : Option Uuid → Option TopologyRequirement → Exec S Code (Pool × StorageRepository)
  pool_by_id none ar = fail invalid_argument
  pool_by_id (some pool_uuid) ar = do
    refuse_if (pool_uuid == uuid_nil) invalid_argument
    of_result (λ _. invalid_argument) (validate_pool_id_against_requisite vendor ar pool_uuid)
    map_err (λ _. failed_precondition) (select_pool_and_storage lib (pool_uuid ∷ []))

  -- Without a topology the pools that carry the tag are taken.
  pools_by_tag : Exec S Code (List Uuid)
  pools_by_tag = do
    ids ← map_err (λ _. internal) (tagged_pool_ids lib driver.kubernetes_pool_tag)
    elim ids [ [] ↦ fail failed_precondition | id ∷ more ↦ pure (id ∷ more) ]

  candidate_pools : Result Error (List Uuid) → Exec S Code (List Uuid)
  unfolding pools_by_tag
  candidate_pools (ok ids) = pure ids
  candidate_pools (err e) =
      if errors_is e err_no_pool_in_topology then pools_by_tag else fail internal
  candidate_pools panic = crash

  -- Case 2: the pool comes from the topology requirements.
  pool_by_topology : Option TopologyRequirement → Exec S Code (Pool × StorageRepository)
  unfolding candidate_pools
  pool_by_topology ar = do
    ids ← candidate_pools (ordered_pool_ids vendor ar)
    map_err (λ _. resource_exhausted) (select_pool_and_storage lib ids)

  unfoldable pub resolve_pool : CreateVolumeRequest → Exec S Code (Pool × StorageRepository)
  unfolding pool_by_id pool_by_topology
  resolve_pool req = elim (explicit_pool req.parameters) [
    | some pool_id ↦ pool_by_id (vendor.from_string pool_id) req.accessibility_requirements
    | none ↦ pool_by_topology req.accessibility_requirements
  ]

  -- Local storage starts on a local SR of the pool; `localSRs[0]` panics on an empty list.
  unfoldable pub local_sr_of_pool :
      String → Pool → StorageRepository → Exec S Code StorageRepository
  local_sr_of_pool storage_type pool sr =
      if storage_type == storage_type_local
      then (do
        local_srs ← map_err (λ _. failed_precondition) (find_local_srs_for_pool lib vendor pool.id)
        elim local_srs [ [] ↦ crash | first ∷ _ ↦ pure first ])
      else pure sr

  unfoldable pub new_volume : CreateVolumeRequest → Pool → StorageRepository → Exec S Code Volume
  new_volume req pool sr = do
    ids ←
        map_err (λ _. internal)
          (create_new_volume lib vendor sr.id driver.vdi_name_prefix
            (capacity_bytes_of req.capacity_range) req.name (driver.name <> "@" <> driver.version)
            driver.cluster_tag)
    pure (volume_for vendor req pool sr (vendor.to_string ids.1))

  -- From the chosen pool and SR on.
  unfoldable pub create_in : CreateVolumeRequest → Pool → StorageRepository → Exec S Code Volume
  unfolding existing_volume new_volume
  create_in req pool sr =
      check (find_vdi_by_volume_name lib req.name)
        (λ e. if errors_is e err_volume_not_found then new_volume req pool sr else fail internal)
        (λ found. existing_volume vendor req pool sr found.0 found.1)

  unfoldable pub create_volume : CreateVolumeRequest → Exec S Code Volume
  unfolding create_guards resolve_pool local_sr_of_pool create_in
  create_volume req = do
    of_result (λ code. code) (create_guards req)
    chosen ← resolve_pool req
    sr ← local_sr_of_pool (storage_type_of req.parameters) chosen.0 chosen.1
    create_in req chosen.0 sr
