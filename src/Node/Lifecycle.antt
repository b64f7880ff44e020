-- ===== src/Node/Lifecycle.antt =====
-- The requests of the life of a volume on a node, from its staging to its unstaging (pkg/xenorchestra-csi/nodeserver.go).
use xenorchestra_csi_driver.Base.{String, false, List, ◌≡◌, ◌==◌, string_eq, ◌<>◌, value_at}
use xenorchestra_csi_driver.Csi.{
  NodePublishVolumeRequest, NodeUnpublishVolumeRequest, NodeStageVolumeRequest,
  NodeUnstageVolumeRequest,
}
use xenorchestra_csi_driver.Mounter.Table.{MountPoint, is_mounted, references}
use xenorchestra_csi_driver.Node.{source_path_of}

-- The four requests of one volume's life, at one staging path and one target, which is bound to it.
pub record Life : Type 0 where
  pub stage : NodeStageVolumeRequest
  pub publish : NodePublishVolumeRequest
  pub unpublish : NodeUnpublishVolumeRequest
  pub unstage : NodeUnstageVolumeRequest
  pub same_target : unpublish.target_path ≡ publish.target_path
  pub source : source_path_of publish ≡ stage.staging_target_path
  pub same_staging : unstage.staging_target_path ≡ stage.staging_target_path
  pub apart : (stage.staging_target_path == publish.target_path) ≡ false

abbrev pub device_path : NodeStageVolumeRequest → String
device_path req = "/dev/" <> value_at "device" req.publish_context

-- The paths and the device of a life are not in use.
pub record IsUnused (life : Life) (mounts : List MountPoint) : Type 0 where
  pub staging : is_mounted life.stage.staging_target_path mounts ≡ false
  pub target : is_mounted life.publish.target_path mounts ≡ false
  pub device : references (device_path life.stage) mounts ≡ 0
