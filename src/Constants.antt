-- ===== src/Constants.antt =====
-- pkg/xenorchestra-csi/constants.go
use xenorchestra_csi_driver.Base.{String}

abbrev pub driver_name : String
driver_name = "csi.xenorchestra.vates.tech"

abbrev pub parameter_pool_id : String
parameter_pool_id = "poolId"

abbrev pub default_vdi_name_prefix : String
default_vdi_name_prefix = "csi-"

abbrev pub default_cluster_tag : String
default_cluster_tag = "k8s-managed"

abbrev pub default_kubernetes_pool_tag : String
default_kubernetes_pool_tag = "k8s-pool"

abbrev pub volume_context_key_sr_id : String
volume_context_key_sr_id = "srId"

abbrev pub volume_context_key_sr_name : String
volume_context_key_sr_name = "srName"

abbrev pub volume_context_key_pool_id : String
volume_context_key_pool_id = "poolId"

abbrev pub volume_context_key_pool_name : String
volume_context_key_pool_name = "poolName"

abbrev pub parameter_storage_type : String
parameter_storage_type = "storageType"

abbrev pub storage_type_shared : String
storage_type_shared = "shared"

abbrev pub storage_type_local : String
storage_type_local = "local"

abbrev pub volume_context_key_storage_type : String
volume_context_key_storage_type = "storageType"

-- pkg/xenorchestra-csi/volume_capabilities.go
abbrev pub default_fs_type : String
default_fs_type = "ext4"
