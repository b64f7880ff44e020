-- ===== src/Node.antt =====
-- pkg/xenorchestra-csi/nodeserver.go
pub mod Requests
pub mod Publishing
pub mod Staging
pub mod Unstaging
pub mod Lifecycle
pub mod Stacks
pub mod Traces
pub mod Info
pub mod Restaging
pub mod Delivery
pub mod Phases
use xenorchestra_csi_driver.Base.{
  ℕ, zero, suc, String, Bool, Option, none, some, List, [], ◌∷◌, ◌++◌, StringMap, lookup, value_at,
  Exec, pure, fail, check, map_err, refuse_if, of_result, ◌>>=◌, ◌>>◌, ◌==◌, string_eq, nat_eq,
  if◌then◌else◌, ◌<>◌, ltb,
}
use xenorchestra_csi_driver.Payloads.{Uuid}
use xenorchestra_csi_driver.Errors.{Code, invalid_argument, internal}
use xenorchestra_csi_driver.Constants.{default_fs_type}
use xenorchestra_csi_driver.Csi.{
  AccessType, block, unset, mount, MountVolume, VolumeCapability, NodePublishVolumeRequest,
  NodeUnpublishVolumeRequest, NodeStageVolumeRequest, NodeUnstageVolumeRequest, NodeInfo,
}
use xenorchestra_csi_driver.Library.{Library, Vendor}
use xenorchestra_csi_driver.Mounter.{Mounter, Os, StatError, not_exist, other_error}
use xenorchestra_csi_driver.Capabilities.{validate_volume_capabilities}
use xenorchestra_csi_driver.XoClient.{is_sr_attached_to_vm_host}
use xenorchestra_csi_driver.NodeMetadata.{NodeMetadata}

pub data NodeCapability : Type 0 where
  stage_unstage_volume : NodeCapability

unfoldable pub node_get_capabilities : List NodeCapability
node_get_capabilities = stage_unstage_volume ∷ []

abbrev pub fs_type_of : MountVolume → String
fs_type_of m = if m.fs_type == "" then default_fs_type else m.fs_type

-- `options`
abbrev pub mount_options : Bool → List String
mount_options readonly = if readonly then "ro" ∷ "bind" ∷ [] else "bind" ∷ []

-- The staging path, or else what the volume context names.
abbrev pub source_path_of : NodePublishVolumeRequest → String
source_path_of req =
    if req.staging_target_path == ""
    then value_at "diskMount" req.volume_context
    else req.staging_target_path

-- `GetMount()`, which is nil for another access type.
abbrev pub get_mount : {S : Type 0} → AccessType → Exec S Code MountVolume
get_mount (mount (some m)) = pure m
get_mount (mount none) = fail invalid_argument
get_mount block = fail invalid_argument
get_mount unset = fail invalid_argument

abbrev pub required : {S A : Type 0} → Option A → Exec S Code A
required none = fail invalid_argument
required (some a) = pure a

-- `os.IsNotExist(err)`: another error of `os.Stat` is passed over.
abbrev pub refuse_missing : {S : Type 0} → StatError → Exec S Code (Unit {0})
refuse_missing not_exist = fail internal
refuse_missing other_error = pure tt

module _ {S : Type 0} (vendor : Vendor) where
  unfoldable pub node_get_info : {E : Type 0} → Exec S E NodeMetadata → Exec S Code NodeInfo
  node_get_info get_node_metadata = do
    metadata ← map_err (λ _. internal) get_node_metadata
    pure (record {
      node_id = metadata.node_id;
      max_volumes_per_node = 239;
      accessible_topology = (vendor.pool_label, metadata.pool_id) ∷ [];
    })

module _ {S : Type 0} (os : Os S) (mounter : Mounter S) where
  -- From the making of the target on.
  unfoldable pub bind_mount : String → String → String → List String → Exec S Code (Unit {0})
  bind_mount source_path target_path fs_type options = do
    map_err (λ _. internal) (os.mkdir_all target_path)
    already_mounted ← map_err (λ _. internal) (mounter.is_mount_point target_path)
    (if already_mounted
        then pure tt
        else map_err (λ _. internal) (mounter.mount source_path target_path fs_type options))

  unfoldable pub node_publish_volume : NodePublishVolumeRequest → Exec S Code (Unit {0})
  unfolding bind_mount
  node_publish_volume req = do
    vol_cap ← required req.volume_capability
    of_result (λ _. invalid_argument) (validate_volume_capabilities (some vol_cap ∷ []))
    refuse_if (req.volume_id == "") invalid_argument
    refuse_if (req.target_path == "") invalid_argument
    refuse_if (source_path_of req == "") invalid_argument
    refuse_if (req.target_path == "") invalid_argument
    mount_volume ← get_mount vol_cap.access_type
    bind_mount (source_path_of req) req.target_path (fs_type_of mount_volume)
        (mount_options req.readonly)

module _ {S : Type 0} (mounter : Mounter S) where
  unfoldable pub node_unpublish_volume : NodeUnpublishVolumeRequest → Exec S Code (Unit {0})
  node_unpublish_volume req = do
    refuse_if (req.volume_id == "") invalid_argument
    refuse_if (req.target_path == "") invalid_argument
    map_err (λ _. internal) (mounter.unmount req.target_path)

  -- What is done with the count of references.
  unfoldable pub unstage_unreferenced : String → ℕ → Exec S Code (Unit {0})
  unstage_unreferenced staging_target ref_count =
      if ltb ref_count 1
      then pure tt
      else if ltb 1 ref_count
      then pure tt
      else map_err (λ _. internal) (mounter.unmount staging_target)

  unfoldable pub node_unstage_volume : NodeUnstageVolumeRequest → Exec S Code (Unit {0})
  unfolding unstage_unreferenced
  node_unstage_volume req = do
    refuse_if (req.volume_id == "") invalid_argument
    refuse_if (req.staging_target_path == "") invalid_argument
    current ← map_err (λ _. internal) (mounter.get_device_name_from_mount req.staging_target_path)
    unstage_unreferenced req.staging_target_path current.1

module _ {S : Type 0} (lib : Library S) (vendor : Vendor) (os : Os S) (mounter : Mounter S) where
  -- From the check of the SR on.
  unfoldable pub stage_device : String → String → String → StringMap → Exec S Code (Unit {0})
  stage_device device_path staging_target fs_type publish_context = do
    refuse_if (value_at "vbd" publish_context == "") invalid_argument
    vbd_id ← required (vendor.from_string (value_at "vbd" publish_context))
    map_err (λ _. internal) (is_sr_attached_to_vm_host lib vendor vbd_id)
    check (os.stat device_path) refuse_missing pure
    map_err (λ _. internal) (mounter.format_and_mount device_path staging_target fs_type [])

  unfoldable pub node_stage_volume : NodeStageVolumeRequest → Exec S Code (Unit {0})
  unfolding stage_device
  node_stage_volume req = do
    refuse_if (req.volume_id == "") invalid_argument
    refuse_if (req.staging_target_path == "") invalid_argument
    vol_cap ← required req.volume_capability
    mount_volume ← get_mount vol_cap.access_type
    let device = value_at "device" req.publish_context
    refuse_if (device == "") invalid_argument
    current ← map_err (λ _. internal) (mounter.get_device_name_from_mount req.staging_target_path)
    (if current.0 == device
        then pure tt
        else stage_device ("/dev/" <> device) req.staging_target_path (fs_type_of mount_volume)
            req.publish_context)
