-- ===== src/NodeMetadata.antt =====
-- pkg/xenorchestra-csi/clients/node_metadata.go. The Kubernetes client and xenorchestra-k8s-common are
-- parameters.
pub mod Stub
use xenorchestra_csi_driver.Base.{String, Exec, map_err, of_result, Result, pure, ◌>>=◌}
use xenorchestra_csi_driver.Payloads.{Uuid, Vm}
use xenorchestra_csi_driver.Errors.{Error, ApiError, api, wrap}
use xenorchestra_csi_driver.Library.{Vendor}

pub record NodeMetadata : Type 0 where
  pub node_id : String
  pub pool_id : String

-- A node of Kubernetes, as far as it is read here: `node.Spec.ProviderID`. What the other source reads
-- of it is the library's.
pub record KubernetesNode : Type 0 where
  pub name : String
  pub provider_id : String

pub record Cluster (S : Type 0) : Type 0 where
  -- `Nodes().Get`
  pub get_node : String → Exec S ApiError KubernetesNode
  -- `xok8s.ParseProviderID`
  pub parse_provider_id : String → Result ApiError (Vm × Uuid)
  -- `xok8s.FindVMByNode`
  pub find_vm_by_node : KubernetesNode → Exec S ApiError (Vm × Uuid)

module _ {S : Type 0} (cluster : Cluster S) (vendor : Vendor) (node_name : String) where
  abbrev metadata_of : Vm → Uuid → NodeMetadata
  metadata_of vm pool_id = record {
    node_id = vendor.to_string vm.id;
    pool_id = vendor.to_string pool_id;
  }

  -- `NodeMetadataFromKubernetes`
  unfoldable pub get_node_metadata_from_kubernetes : Exec S Error NodeMetadata
  get_node_metadata_from_kubernetes = do
    node ← map_err (λ e. wrap (api e)) (cluster.get_node node_name)
    found ← of_result (λ e. wrap (api e)) (cluster.parse_provider_id node.provider_id)
    pure (metadata_of found.0 found.1)

  -- `NodeMetadataFromXoClient`
  unfoldable pub get_node_metadata_from_xo_client : Exec S Error NodeMetadata
  get_node_metadata_from_xo_client = do
    node ← map_err (λ e. wrap (api e)) (cluster.get_node node_name)
    found ← map_err (λ e. wrap (api e)) (cluster.find_vm_by_node node)
    pure (metadata_of found.0 found.1)
