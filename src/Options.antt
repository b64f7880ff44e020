-- ===== src/Options.antt =====
-- The settings of the driver: pkg/xenorchestra-csi/driveroptions.go and the constructor of
-- pkg/xenorchestra-csi/xenorchestra-csi.go.
use xenorchestra_csi_driver.Base.{
  String, Option, none, some, Result, ok, err, ◌==◌, string_eq, if◌then◌else◌,
}
use xenorchestra_csi_driver.Constants.{
  driver_name, default_vdi_name_prefix, default_cluster_tag, default_kubernetes_pool_tag,
}
use xenorchestra_csi_driver.Errors.{Error, message}
use xenorchestra_csi_driver.Csi.{Driver}

-- A text; the flag admits the two that are declared.
pub data NodeMetadataSource : Type 0 where
  kubernetes xo_api : NodeMetadataSource
  other_source : String → NodeMetadataSource

pub record DriverOptions : Type 0 where
  pub node_name : String
  pub driver_name : String
  pub endpoint : String
  pub config_file : String
  pub node_metadata_source : NodeMetadataSource
  pub vdi_name_prefix : String
  pub cluster_tag : String
  pub kubernetes_pool_tag : String

-- What `AddFlags` leaves where no flag is passed.
unfoldable pub default_options : DriverOptions
default_options = record {
  node_name = "";
  driver_name = driver_name;
  endpoint = "unix://tmp/csi.sock";
  config_file = "/etc/xenorchestra/config.yaml";
  node_metadata_source = kubernetes;
  vdi_name_prefix = default_vdi_name_prefix;
  cluster_tag = default_cluster_tag;
  kubernetes_pool_tag = default_kubernetes_pool_tag;
}

-- The flag "node-metadata-source".
unfoldable pub set_node_metadata_source : String → DriverOptions → Result Error DriverOptions
set_node_metadata_source v options =
    if v == "kubernetes"
    then ok (record options { node_metadata_source = kubernetes })
    else if v == "xo-api"
    then ok (record options { node_metadata_source = xo_api })
    else err message

-- `none` is the end of the process by `klog.Fatal`; `driver_version` is the
-- variable of version.go that a build sets.
unfoldable pub new_driver_with_dependencies : String → DriverOptions → Option Driver
new_driver_with_dependencies driver_version options =
    if options.driver_name == ""
    then none
    else if options.node_name == ""
    then none
    else if options.endpoint == ""
    then none
    else some (record {
      name = options.driver_name;
      version = driver_version;
      endpoint = options.endpoint;
      vdi_name_prefix = options.vdi_name_prefix;
      cluster_tag = options.cluster_tag;
      kubernetes_pool_tag = options.kubernetes_pool_tag;
    })
