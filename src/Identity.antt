-- ===== src/Identity.antt =====
-- pkg/xenorchestra-csi/identityserver.go
pub mod Info
use xenorchestra_csi_driver.Base.{
  String, Bool, true, List, [], ◌∷◌, Result, ok, err, ◌==◌, string_eq, if◌then◌else◌,
}
use xenorchestra_csi_driver.Errors.{Code, unavailable}
use xenorchestra_csi_driver.Csi.{Driver}

pub data PluginCapability : Type 0 where
  controller_service volume_accessibility_constraints : PluginCapability

unfoldable pub get_plugin_capabilities : List PluginCapability
get_plugin_capabilities = controller_service ∷ volume_accessibility_constraints ∷ []

-- The name and the version.
unfoldable pub get_plugin_info : Driver → Result Code (String × String)
get_plugin_info driver =
    if driver.name == ""
    then err unavailable
    else if driver.version == ""
    then err unavailable
    else ok (driver.name, driver.version)

unfoldable pub probe : Bool
probe = true
