-- ===== src/Capabilities.antt =====
-- pkg/xenorchestra-csi/volume_capabilities.go
pub mod Checks
use xenorchestra_csi_driver.Base.{Option, none, some, List, [], ◌∷◌, Result, ok, err, panic}
use xenorchestra_csi_driver.Csi.{
  VolumeCapability, AccessType, block, unset, mount, AccessMode, unknown, single_node_writer,
}

pub data CapabilityError : Type 0 where
  at_least_one_required nil_capability block_not_supported unknown_access_type : CapabilityError
  mode_not_supported : AccessMode → CapabilityError

-- `GetMode()` of a nil pointer is the mode 0.
abbrev pub get_mode : Option AccessMode → AccessMode
get_mode none = unknown
get_mode (some mode) = mode

abbrev check_mode : AccessMode → Result CapabilityError (Unit {0})
check_mode single_node_writer = ok tt
check_mode mode = err (mode_not_supported mode)

abbrev check_access : AccessType → AccessMode → Result CapabilityError (Unit {0})
check_access block mode = err block_not_supported
check_access unset mode = err unknown_access_type
check_access (mount m) mode = check_mode mode

unfoldable pub validate_volume_capability :
    Option VolumeCapability → Result CapabilityError (Unit {0})
validate_volume_capability none = err nil_capability
validate_volume_capability (some c) = check_access c.access_type (get_mode c.access_mode)

validate_each : List (Option VolumeCapability) → Result CapabilityError (Unit {0})
unfolding validate_volume_capability
validate_each [] = ok tt
validate_each (c ∷ cs) =
    let rest = validate_each cs in
    elim (validate_volume_capability c) [ ok _ ↦ rest | err e ↦ err e | panic ↦ panic ]

unfoldable pub validate_volume_capabilities :
    List (Option VolumeCapability) → Result CapabilityError (Unit {0})
unfolding validate_each
validate_volume_capabilities [] = err at_least_one_required
validate_volume_capabilities (c ∷ cs) = validate_each (c ∷ cs)
