-- ===== src/Mounter.antt =====
-- pkg/xenorchestra-csi/clients/mounter.go. What it calls of k8s.io/mount-utils, and what the node
-- service calls of Go's `os`, are parameters. A path stands for what its symbolic links lead to.
pub mod Table
pub mod Stacking
pub mod Unmounting
use xenorchestra_csi_driver.Base.{ℕ, String, Bool, true, List, Exec, pure, ◌<>◌}

-- An error is known by its text.
abbrev pub HostError : Type 0
HostError = String

-- `GetDeviceNameFromMount` also returns the count of references to the device.
pub record MountUtils (S : Type 0) : Type 0 where
  pub format_and_mount : String → String → String → List String → Exec S HostError (Unit {0})
  -- `CleanupMountPoint`, whose flag asks for an extensive check
  pub cleanup_mount_point : String → Bool → Exec S HostError (Unit {0})
  pub mount : String → String → String → List String → Exec S HostError (Unit {0})
  pub get_device_name_from_mount : String → Exec S HostError (String × ℕ)
  pub is_mount_point : String → Exec S HostError Bool

pub data StatError : Type 0 where
  not_exist other_error : StatError

pub record Os (S : Type 0) : Type 0 where
  pub mkdir_all : String → Exec S HostError (Unit {0})
  pub stat : String → Exec S StatError (Unit {0})

pub record Mounter (S : Type 0) : Type 0 where
  pub format_and_mount : String → String → String → List String → Exec S HostError (Unit {0})
  pub unmount : String → Exec S HostError (Unit {0})
  pub mount : String → String → String → List String → Exec S HostError (Unit {0})
  pub find_device_path : String → String → Exec S HostError String
  pub get_device_name_from_mount : String → Exec S HostError (String × ℕ)
  pub is_mount_point : String → Exec S HostError Bool

unfoldable pub safe_mounter : {S : Type 0} → MountUtils S → Mounter S
safe_mounter utils = record {
  format_and_mount =
      λ source target fs_type options. utils.format_and_mount source target fs_type options;
  unmount = λ target. utils.cleanup_mount_point target true;
  mount = λ source target fs_type options. utils.mount source target fs_type options;
  find_device_path = λ device_name vbd_uuid. pure ("/dev/" <> device_name);
  get_device_name_from_mount = λ mount_path. utils.get_device_name_from_mount mount_path;
  is_mount_point = λ target. utils.is_mount_point target;
}
