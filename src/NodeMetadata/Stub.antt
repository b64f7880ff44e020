-- ===== src/NodeMetadata/Stub.antt =====
-- The metadata of a fixed node (pkg/xenorchestra-csi/clients/stub/node_metadata_stub.go).
use xenorchestra_csi_driver.Base.{String, Exec, pure}
use xenorchestra_csi_driver.NodeMetadata.{NodeMetadata}

abbrev pub stub_node_id : String
stub_node_id = "10000000-0000-0000-0000-000000000001"

abbrev pub stub_pool_id : String
stub_pool_id = "20000000-0000-0000-0000-000000000002"

-- `NodeMetadataGetterStub`
unfoldable pub get_node_metadata_of_stub : {S E : Type 0} → Exec S E NodeMetadata
get_node_metadata_of_stub = pure (record { node_id = stub_node_id; pool_id = stub_pool_id })
