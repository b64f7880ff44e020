-- ===== src/Csi.antt =====
-- The CSI messages that the driver reads and writes (the fields that it uses), and the driver's
-- settings. A `nil` pointer is `none`; a `map[string]string` is a list of pairs.
use xenorchestra_csi_driver.Base.{ℕ, String, Bool, Option, List, StringMap}
use xenorchestra_csi_driver.Payloads.{ℤ}

pub record MountVolume : Type 0 where
  pub fs_type : String
  pub mount_flags : List String

-- The `oneof` of a capability; a mount may hold a nil pointer.
pub data AccessType : Type 0 where
  block unset : AccessType
  mount : Option MountVolume → AccessType

pub data AccessMode : Type 0 where
  unknown single_node_writer single_node_reader_only multi_node_reader_only : AccessMode
  multi_node_single_writer multi_node_multi_writer : AccessMode
  single_node_single_writer single_node_multi_writer : AccessMode

pub record VolumeCapability : Type 0 where
  pub access_type : AccessType
  pub access_mode : Option AccessMode

-- A topology is the map of its segments.
pub record TopologyRequirement : Type 0 where
  pub requisite : List StringMap
  pub preferred : List StringMap

pub record ControllerPublishVolumeRequest : Type 0 where
  pub node_id : String
  pub volume_id : String
  pub volume_capability : Option VolumeCapability
  pub volume_context : StringMap

pub record ControllerUnpublishVolumeRequest : Type 0 where
  pub node_id : String
  pub volume_id : String

-- `capacity_range` is its `required_bytes`.
pub record CreateVolumeRequest : Type 0 where
  pub name : String
  pub has_content_source : Bool
  pub volume_capabilities : List (Option VolumeCapability)
  pub capacity_range : Option ℤ
  pub parameters : StringMap
  pub accessibility_requirements : Option TopologyRequirement

pub record Volume : Type 0 where
  pub volume_id : String
  pub capacity_bytes : ℤ
  pub accessible_topology : List StringMap
  pub volume_context : StringMap

pub record ValidateVolumeCapabilitiesRequest : Type 0 where
  pub volume_id : String
  pub volume_capabilities : List (Option VolumeCapability)
  pub volume_context : StringMap
  pub parameters : StringMap

-- pkg/xenorchestra-csi/xenorchestra-csi.go, without the interfaces, which are arguments.
pub record Driver : Type 0 where
  pub name : String
  pub version : String
  pub endpoint : String
  pub vdi_name_prefix : String
  pub cluster_tag : String
  pub kubernetes_pool_tag : String

pub record NodePublishVolumeRequest : Type 0 where
  pub volume_id : String
  pub target_path : String
  pub staging_target_path : String
  pub volume_capability : Option VolumeCapability
  pub volume_context : StringMap
  pub readonly : Bool

pub record NodeUnpublishVolumeRequest : Type 0 where
  pub volume_id : String
  pub target_path : String

pub record NodeStageVolumeRequest : Type 0 where
  pub volume_id : String
  pub staging_target_path : String
  pub volume_capability : Option VolumeCapability
  pub publish_context : StringMap

pub record NodeUnstageVolumeRequest : Type 0 where
  pub volume_id : String
  pub staging_target_path : String

-- `NodeGetInfoResponse`
pub record NodeInfo : Type 0 where
  pub node_id : String
  pub max_volumes_per_node : ℕ
  pub accessible_topology : StringMap
