-- ===== src/Node/Info.antt =====
-- What `NodeGetInfo` tells the controller (pkg/xenorchestra-csi/nodeserver.go, clients/node_metadata.go).
use xenorchestra_csi_driver.Base.{
  String, some, [], ◌∷◌, Exec, Result, ok, check, ◌≡◌, ◌≢◌, refl, string_eq, nat_eq, arith,
}
use xenorchestra_csi_driver.Payloads.{Uuid, uuid_nil, Vm}
use xenorchestra_csi_driver.Errors.{Error, Code}
use xenorchestra_csi_driver.Csi.{NodeInfo}
use xenorchestra_csi_driver.Library.{Vendor}
use xenorchestra_csi_driver.Library.Documented.{IsDocumented}
use xenorchestra_csi_driver.Topology.{pool_uuid_from_topology}
use xenorchestra_csi_driver.NodeMetadata.{
  NodeMetadata, KubernetesNode, Cluster, get_node_metadata_from_kubernetes,
  get_node_metadata_from_xo_client,
}
use xenorchestra_csi_driver.NodeMetadata.Stub.{
  stub_node_id, stub_pool_id, get_node_metadata_of_stub,
}
use xenorchestra_csi_driver.Node.{node_get_info}

-- An answer from which the controller reads back the VM of the node and its pool.
pub record IsReadable (vendor : Vendor) (vm : Vm) (pool : Uuid) (r : Result Code NodeInfo)
    : Type 0 where
  pub info : NodeInfo
  pub answer : r ≡ ok info
  pub node : vendor.from_string info.node_id ≡ some vm.id
  pub topology : pool_uuid_from_topology vendor info.accessible_topology ≡ ok (pool ∷ [])

module _ {vendor : Vendor} (documented : IsDocumented vendor) where
  pool_of_topology :
      (pool : Uuid)
      → pool ≢ uuid_nil
      → pool_uuid_from_topology vendor ((vendor.pool_label, vendor.to_string pool) ∷ [])
        ≡ ok (pool ∷ [])
  unfolding pool_uuid_from_topology
  pool_of_topology pool h =
      ground (arith, documented.to_string-ne-empty pool, documented.from_string-to_string pool)

  readable :
      {S : Type 0} (getter : Exec S Error NodeMetadata) (s : S) (vm : Vm) (pool : Uuid)
      → pool ≢ uuid_nil
      → (getter s).0
        ≡ ok (record { node_id = vendor.to_string vm.id; pool_id = vendor.to_string pool })
      → IsReadable vendor vm pool (node_get_info vendor getter s).0
  unfolding node_get_info check
  readable getter s vm pool h e = record {
    info = record {
      node_id = vendor.to_string vm.id;
      max_volumes_per_node = 239;
      accessible_topology = (vendor.pool_label, vendor.to_string pool) ∷ [];
    };
    answer = rw e refl;
    node = documented.from_string-to_string vm.id;
    topology = pool_of_topology pool h;
  }

  -- With Kubernetes as the source: if the node is there and its provider ID names a VM and a pool, `NodeGetInfo`
  -- answers, and the controller reads that VM and that pool back from the answer.
  pub node_get_info_of_kubernetes :
      {S : Type 0} (cluster : Cluster S) (node_name : String) (s : S) (node : KubernetesNode)
      (vm : Vm) (pool : Uuid)
      → (cluster.get_node node_name s).0 ≡ ok node
      → cluster.parse_provider_id node.provider_id ≡ ok (vm, pool)
      → pool ≢ uuid_nil
      → IsReadable vendor vm pool
          (node_get_info vendor (get_node_metadata_from_kubernetes cluster vendor node_name) s).0
  unfolding get_node_metadata_from_kubernetes check
  node_get_info_of_kubernetes cluster node_name s node vm pool there parsed h =
      readable (get_node_metadata_from_kubernetes cluster vendor node_name) s vm pool h
        (rw (there, parsed) refl)

  node_get_info_of_xo_api :
      {S : Type 0} (cluster : Cluster S) (node_name : String) (s : S) (node : KubernetesNode)
      (vm : Vm) (pool : Uuid)
      → (cluster.get_node node_name s).0 ≡ ok node
      → (cluster.find_vm_by_node node (cluster.get_node node_name s).1).0 ≡ ok (vm, pool)
      → pool ≢ uuid_nil
      → IsReadable vendor vm pool
          (node_get_info vendor (get_node_metadata_from_xo_client cluster vendor node_name) s).0
  unfolding get_node_metadata_from_xo_client check
  node_get_info_of_xo_api cluster node_name s node vm pool there found h =
      readable (get_node_metadata_from_xo_client cluster vendor node_name) s vm pool h
        (rw (there, found) refl)

  node_get_info_of_stub :
      {S : Type 0} (s : S) (vm : Vm) (pool : Uuid)
      → vendor.to_string vm.id ≡ stub_node_id
      → vendor.to_string pool ≡ stub_pool_id
      → pool ≢ uuid_nil
      → IsReadable vendor vm pool (node_get_info vendor (get_node_metadata_of_stub {E = Error}) s).0
  unfolding get_node_metadata_of_stub
  node_get_info_of_stub s vm pool its_vm its_pool h =
      readable get_node_metadata_of_stub s vm pool h (rw (its_vm, its_pool) refl)
