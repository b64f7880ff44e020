-- ===== src/Identity/Info.antt =====
-- What a driver that was started tells of itself.
use xenorchestra_csi_driver.Base.{String, some, ok, ◌≡◌, ◌≢◌, string_eq, arith}
use xenorchestra_csi_driver.Csi.{Driver}
use xenorchestra_csi_driver.Options.{DriverOptions, new_driver_with_dependencies}
use xenorchestra_csi_driver.Identity.{get_plugin_info}

-- A driver that the constructor makes, in a build with a version, answers `GetPluginInfo` with the name
-- of its options and that version, and never with an error.
pub get_plugin_info-new_driver_with_dependencies :
    (driver_version : String) (options : DriverOptions) (driver : Driver)
    → driver_version ≢ ""
    → new_driver_with_dependencies driver_version options ≡ some driver
    → get_plugin_info driver ≡ ok (options.driver_name, driver_version)
unfolding get_plugin_info new_driver_with_dependencies
get_plugin_info-new_driver_with_dependencies driver_version options driver versioned h =
    ground arith
