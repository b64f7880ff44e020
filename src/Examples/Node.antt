-- ===== src/Examples/Node.antt =====
-- Runs of the node service, and of its theorems, on a node in memory.
use xenorchestra_csi_driver.Base.{
  option_eq, ◌≢◌, true, false, some, List, [], ◌∷◌, ok, err, ◌≡◌, refl, nat_eq, option_eq,
  string_eq, char_eq, check, ap, sym, ◌==◌, Option, String,
}
use xenorchestra_csi_driver.Errors.{invalid_argument}
use xenorchestra_csi_driver.Csi.{
  VolumeCapability, mount, block, single_node_writer, NodePublishVolumeRequest,
}
use xenorchestra_csi_driver.Capabilities.{validate_volume_capability, validate_volume_capabilities}
use xenorchestra_csi_driver.XoClient.{is_sr_attached_to_host, is_sr_attached_to_vm_host}
use xenorchestra_csi_driver.XoClient.Storage.{is_sr_of_vdi_attached_to_vm_host}
use xenorchestra_csi_driver.Mounter.{Mounter, safe_mounter}
use xenorchestra_csi_driver.Mounter.Table.{MountPoint}
use xenorchestra_csi_driver.Mounter.Stacking.{NoStack}
use xenorchestra_csi_driver.Node.{
  source_path_of, bind_mount, node_publish_volume, node_unpublish_volume, unstage_unreferenced,
  node_unstage_volume, stage_device, node_stage_volume,
}
use xenorchestra_csi_driver.Node.Requests.{node_publish_volume_of_not_IsPublishable}
use xenorchestra_csi_driver.Node.Publishing.{
  Mounted, node_publish_volume-Mounted, node_publish_volume_again,
}
use xenorchestra_csi_driver.Node.Staging.{Staged, node_stage_volume-Staged}
use xenorchestra_csi_driver.Node.Phases.{
  Call, absent, stage_call, publish_call, unpublish_call, unstage_call, mounts_in,
}
use xenorchestra_csi_driver.Node.Phases.Calls.{make_calls, make_calls-mounts}
use xenorchestra_csi_driver.Node.Restaging.{node_stage_volume_again}
use xenorchestra_csi_driver.Node.Unstaging.{node_unstage_volume_of_published}
use xenorchestra_csi_driver.Node.Lifecycle.{Life, IsUnused}
use xenorchestra_csi_driver.Node.Traces.{stage, publish, unstage, Reach, here, next, Reach-NoStack}
use xenorchestra_csi_driver.Examples.Memory.{Store, memory, vendor, memory-ReadsOnly}
use xenorchestra_csi_driver.Examples.Data.{plug, busy, machine}
use xenorchestra_csi_driver.Examples.Host.{
  utils, os, mounts, os-IsOs, utils-IsMounter, utils-IsBusy,
}

abbrev mounter : Mounter Store
mounter = safe_mounter utils

abbrev capability : Option VolumeCapability
capability = some (record {
  access_type = mount (some (record { fs_type = ""; mount_flags = [] }));
  access_mode = some single_node_writer;
})

abbrev staging_path : String
staging_path = "/staging"

abbrev target_path : String
target_path = "/target"

apart : (staging_path == target_path) ≡ false
unfolding string_eq char_eq
apart = refl

abbrev publish_request : NodePublishVolumeRequest
publish_request = record {
  volume_id = "vol";
  target_path = target_path;
  staging_target_path = staging_path;
  volume_capability = capability;
  volume_context = [];
  readonly = false;
}

from_staging : source_path_of publish_request ≡ staging_path
unfolding string_eq char_eq
from_staging = refl

abbrev life : Life
life = record {
  stage = record {
    volume_id = "vol";
    staging_target_path = staging_path;
    volume_capability = capability;
    publish_context = ("device", "xvdb") ∷ ("vbd", "iiiiiiu") ∷ [];
  };
  publish = publish_request;
  unpublish = record { volume_id = "vol"; target_path = target_path };
  unstage = record { volume_id = "vol"; staging_target_path = staging_path };
  same_target = refl;
  same_staging = refl;
  source = from_staging;
  apart = apart;
}

abbrev root : MountPoint
root = record { device = "/dev/xvda"; path = "/" }

abbrev at_staging : MountPoint
at_staging = record { device = "/dev/xvdb"; path = staging_path }

abbrev at_target : MountPoint
at_target = record { device = "/dev/xvdb"; path = target_path }

-- The volume's VDI is attached, to the VM that is this node.
abbrev attached : Store
attached = record busy {
  vbds = record plug { vm = 8 } ∷ [];
  vms = machine ∷ [];
  mounts = root ∷ [];
}

abbrev staged : Store
staged = record attached { mounts = root ∷ at_staging ∷ [] }

abbrev published : Store
published = record attached { mounts = root ∷ at_staging ∷ at_target ∷ [] }

stages : node_stage_volume memory vendor os mounter life.stage attached ≡ (ok tt, staged)
unfolding node_stage_volume stage_device is_sr_attached_to_vm_host is_sr_of_vdi_attached_to_vm_host
    is_sr_attached_to_host safe_mounter check nat_eq string_eq char_eq option_eq
stages = refl

publishes : node_publish_volume os mounter life.publish staged ≡ (ok tt, published)
unfolding node_publish_volume bind_mount safe_mounter validate_volume_capabilities
    validate_volume_capability check nat_eq string_eq char_eq
publishes = refl

unpublishes : node_unpublish_volume mounter life.unpublish published ≡ (ok tt, staged)
unfolding node_unpublish_volume safe_mounter check nat_eq string_eq char_eq option_eq
unpublishes = refl

unstages : node_unstage_volume mounter life.unstage staged ≡ (ok tt, attached)
unfolding node_unstage_volume unstage_unreferenced safe_mounter check nat_eq string_eq char_eq
    option_eq
unstages = refl

unused : IsUnused life (mounts attached)
unfolding string_eq char_eq
unused = record { staging = refl; target = refl; device = refl }

node_publish_volume-Mounted_example :
    Mounted staging_path target_path (mounts staged) (mounts published)
unfolding string_eq char_eq
node_publish_volume-Mounted_example =
    node_publish_volume-Mounted os-IsOs utils-IsMounter life.publish staged published publishes

node_publish_volume_again_example :
    ((node_publish_volume os mounter life.publish published).0 ≡ ok tt)
    × (mounts (node_publish_volume os mounter life.publish published).1 ≡ mounts published)
unfolding safe_mounter string_eq char_eq
node_publish_volume_again_example =
    node_publish_volume_again os-IsOs utils-IsMounter life.publish staged published true publishes
      refl refl

node_stage_volume-Staged_example : Staged "xvdb" staging_path (mounts attached) (mounts staged)
unfolding string_eq char_eq
node_stage_volume-Staged_example =
    node_stage_volume-Staged memory-ReadsOnly vendor os-IsOs utils-IsMounter life.stage attached
      staged stages

node_unstage_volume_of_published_example :
    mounts (node_unstage_volume mounter life.unstage published).1 ≡ mounts published
unfolding string_eq char_eq
node_unstage_volume_of_published_example =
    node_unstage_volume_of_published utils-IsMounter life.unstage "/dev/xvdb" target_path published
      refl refl refl

abbrev as_block : NodePublishVolumeRequest
as_block = record life.publish {
  volume_capability = some (record { access_type = block; access_mode = some single_node_writer });
}

node_publish_volume_of_not_IsPublishable_example :
    node_publish_volume os mounter as_block staged ≡ (err invalid_argument, staged)
node_publish_volume_of_not_IsPublishable_example =
    node_publish_volume_of_not_IsPublishable os mounter as_block staged
      (λ m h. cc (h.given, h.by_mount))

abbrev Trace : Store → Type 0
Trace = Reach memory vendor os mounter mounts attached

too_early : node_unstage_volume mounter life.unstage published ≡ (ok tt, published)
unfolding node_unstage_volume unstage_unreferenced safe_mounter check nat_eq string_eq char_eq
    option_eq
too_early = refl

calls : Trace published
unfolding string_eq char_eq
calls =
    next
      (next (next here (stage life.stage refl (ap (λ p. p.1) (sym stages))))
        (publish life.publish (ap (λ p. p.1) (sym publishes))))
      (unstage life.unstage (ap (λ p. p.1) (sym too_early)))

Reach-NoStack_example : NoStack (mounts published)
unfolding string_eq char_eq
Reach-NoStack_example =
    Reach-NoStack memory-ReadsOnly vendor os-IsOs utils-IsMounter calls (refl, tt)

node_stage_volume_again_example :
    (node_stage_volume memory vendor os mounter life.stage staged).0 ≢ ok tt
unfolding string_eq char_eq
node_stage_volume_again_example =
    node_stage_volume_again memory-ReadsOnly vendor os-IsOs utils-IsMounter utils-IsBusy life.stage
      attached staged refl stages

abbrev a_life : List Call
a_life =
    stage_call ∷ publish_call ∷ publish_call ∷ unstage_call ∷ unpublish_call ∷ unpublish_call
    ∷ unstage_call ∷ unstage_call ∷ []

lives : make_calls memory vendor os mounter life a_life attached ≡ (ok tt, attached)
unfolding node_stage_volume stage_device is_sr_attached_to_vm_host is_sr_of_vdi_attached_to_vm_host
    is_sr_attached_to_host node_publish_volume bind_mount validate_volume_capabilities
    validate_volume_capability node_unpublish_volume node_unstage_volume unstage_unreferenced
    safe_mounter check nat_eq string_eq char_eq option_eq
lives = refl

make_calls-mounts_example : mounts attached ≡ mounts_in life (root ∷ []) absent
make_calls-mounts_example =
    make_calls-mounts memory-ReadsOnly vendor os-IsOs utils-IsMounter life (root ∷ []) unused a_life
      absent absent attached attached refl refl lives
