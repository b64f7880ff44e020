-- ===== src/Examples/Data.antt =====
-- A disk, its cluster and some requests.
use xenorchestra_csi_driver.Base.{
  true, false, none, some, [], ◌∷◌, ok, nat_eq, option_eq, string_eq, char_eq, ◌++◌, StringMap, suc,
  not, ◌==◌, Option, String,
}
use xenorchestra_csi_driver.Payloads.{Vm, Vdi, Vbd, Pool, StorageRepository, pos}
use xenorchestra_csi_driver.Options.{DriverOptions, default_options}
use xenorchestra_csi_driver.Csi.{
  ControllerUnpublishVolumeRequest, ControllerPublishVolumeRequest, Volume, CreateVolumeRequest,
  Driver, VolumeCapability, mount, single_node_writer, TopologyRequirement, multi_node_multi_writer,
}
use xenorchestra_csi_driver.Controller.Create.{volume_for}
use xenorchestra_csi_driver.Library.{Library}
use xenorchestra_csi_driver.Examples.Memory.{Store, memory, vendor}

abbrev pub disk : Vdi
disk = record {
  id = 5;
  pool_id = 1;
  sr = 2;
  size = pos 1000;
  name_label = "csi-vol-pv";
  name_description = "";
  tags = "k8s:volumeId:vol" ∷ "k8s:pvName:pv" ∷ [];
}

abbrev pub plug : Vbd
plug = record { id = 6; vm = 7; vdi = some 5; attached = true; device = some "xvdb" }

abbrev pub home : Pool
home = record { id = 1; name_label = "pool"; default_sr = 2 }

abbrev pub shelf : StorageRepository
shelf = record { id = 2; name_label = "nfs"; in_maintenance_mode = false }

-- One disk, attached to one VM.
abbrev pub busy : Store
busy = record {
  vdis = disk ∷ [];
  vbds = plug ∷ [];
  vms = [];
  pools = home ∷ [];
  srs = shelf ∷ [];
  next = 9;
  mounts = [];
}

abbrev pub driver : Driver
driver = record {
  name = "csi";
  version = "1";
  endpoint = "";
  vdi_name_prefix = "csi-";
  cluster_tag = "k8s-managed";
  kubernetes_pool_tag = "k8s";
}

abbrev pub one_writer : Option VolumeCapability
one_writer = some (record { access_type = mount none; access_mode = some single_node_writer })

abbrev pub many_writers : Option VolumeCapability
many_writers =
    some (record { access_type = mount none; access_mode = some multi_node_multi_writer })

abbrev pub request : String → CreateVolumeRequest
request name = record {
  name = name;
  has_content_source = false;
  volume_capabilities = one_writer ∷ [];
  capacity_range = some (pos 1000);
  parameters = [];
  accessibility_requirements = none;
}

abbrev pub at_pool : String → StringMap
at_pool id = ("topology.k8s.xenorchestra/pool_id", id) ∷ []

abbrev pub two_pools : TopologyRequirement
two_pools = record { requisite = at_pool "iu" ∷ at_pool "iiu" ∷ []; preferred = at_pool "iiu" ∷ [] }

-- A VBD is attached only at the second poll.
abbrev pub slow : Library Store
slow = record memory {
  vbd_get =
      λ id s. (ok (record plug { attached = not (s.next == 9) }), record s { next = suc s.next });
}

-- Before anything was created.
abbrev pub fresh : Store
fresh = record busy { vdis = []; vbds = [] }

abbrev pub new_disk : Vdi
new_disk = record {
  id = 9;
  pool_id = 0;
  sr = 2;
  size = pos 1000;
  name_label = "csi-iiiiiiiiiu-pv";
  name_description = "VDI managed by the Kubernetes CSI; pv-name=pv";
  tags = "k8s:volumeId:iiiiiiiiiu" ∷ "k8s:pvName:pv" ∷ "k8s:managedBy:csi@1" ∷ "k8s-managed" ∷ [];
}

abbrev pub after_creation : Store
after_creation = record fresh { vdis = new_disk ∷ []; next = 10 }

abbrev pub new_volume_of_pv : Volume
new_volume_of_pv = volume_for vendor (request "pv") home shelf "iiiiiiiiiu"

abbrev pub machine : Vm
machine = record { id = 8; pool_id = 1; container = 3 }

abbrev pub publish_request : ControllerPublishVolumeRequest
publish_request = record {
  node_id = "iiiiiiiiu";
  volume_id = "vol";
  volume_capability = one_writer;
  volume_context = [];
}

-- The VDI has a VBD, which no longer attaches it, and a second VM asks for it.
abbrev pub released : Store
released = record busy { vbds = record plug { attached = false } ∷ []; vms = machine ∷ [] }

abbrev pub taken_over : Store
taken_over = record busy {
  vdis = record disk { tags = disk.tags ++ "k8s-managed" ∷ [] } ∷ [];
  vbds =
      record plug { attached = false }
      ∷ record { id = 9; vm = 8; vdi = some 5; attached = true; device = some "xvdb" }
      ∷ [];
  vms = machine ∷ [];
  next = 10;
}

abbrev pub unpublish_request : ControllerUnpublishVolumeRequest
unpublish_request = record { node_id = "iiiiiiiiu"; volume_id = "vol" }

-- The VDI has VBDs of two VMs.
abbrev pub shared_disk : Store
shared_disk = record busy {
  vbds = plug ∷ record { id = 4; vm = 8; vdi = some 5; attached = false; device = none } ∷ [];
}

-- Two VDIs carry the tag of the volume.
abbrev pub twins : Store
twins = record busy { vdis = disk ∷ disk ∷ [] }

abbrev pub named_options : DriverOptions
named_options = record default_options { node_name = "node-1" }

abbrev pub named_driver : Driver
named_driver = record {
  name = "csi.xenorchestra.vates.tech";
  version = "1.2.0";
  endpoint = "unix://tmp/csi.sock";
  vdi_name_prefix = "csi-";
  cluster_tag = "k8s-managed";
  kubernetes_pool_tag = "k8s-pool";
}

-- The same volume on local storage, and the local SR of the second VM's host.
abbrev pub local_request : ControllerPublishVolumeRequest
local_request = record publish_request { volume_context = ("storageType", "local") ∷ [] }

abbrev pub local_shelf : StorageRepository
local_shelf = record { id = 4; name_label = "local"; in_maintenance_mode = false }

abbrev pub before_move : Store
before_move = record released { srs = local_shelf ∷ [] }
