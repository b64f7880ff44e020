-- ===== src/Examples/Delivery.antt =====
-- A volume on local storage on its way from the controller to the node.
use xenorchestra_csi_driver.Base.{some, [], ◌∷◌}
use xenorchestra_csi_driver.Csi.{NodeStageVolumeRequest, mount, single_node_writer}
use xenorchestra_csi_driver.Examples.Memory.{Store}
use xenorchestra_csi_driver.Examples.Ownership.{after_move}
use xenorchestra_csi_driver.Examples.Host.{mounts}

abbrev stage_request : NodeStageVolumeRequest
stage_request = record {
  volume_id = "vol";
  staging_target_path = "/staging";
  volume_capability = some (record {
    access_type = mount (some (record { fs_type = ""; mount_flags = [] }));
    access_mode = some single_node_writer;
  });
  publish_context = ("device", "xvdb") ∷ ("vbd", "iiiiiiiiiiu") ∷ [];
}

abbrev delivered : Store
delivered = record after_move { mounts = record { device = "/dev/xvdb"; path = "/staging" } ∷ [] }
