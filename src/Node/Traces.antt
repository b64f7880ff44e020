-- ===== src/Node/Traces.antt =====
-- The mounts of a node over any sequence of calls, each with any request and any outcome.
use xenorchestra_csi_driver.Base.{false, List, ◌≡◌, refl, sym, subst}
use xenorchestra_csi_driver.Csi.{
  NodePublishVolumeRequest, NodeUnpublishVolumeRequest, NodeStageVolumeRequest,
  NodeUnstageVolumeRequest,
}
use xenorchestra_csi_driver.Library.{Library, Vendor}
use xenorchestra_csi_driver.World.{ReadsOnly}
use xenorchestra_csi_driver.Mounter.{Mounter, Os}
use xenorchestra_csi_driver.Mounter.Table.{MountPoint, IsMounter, IsOs, is_mounted}
use xenorchestra_csi_driver.Mounter.Stacking.{NoStack}
use xenorchestra_csi_driver.Node.{
  node_publish_volume, node_unpublish_volume, node_stage_volume, node_unstage_volume,
}
use xenorchestra_csi_driver.Node.Stacks.{
  node_unpublish_volume-Keeps, node_unstage_volume-Keeps, node_publish_volume-Keeps,
  node_stage_volume-Leads,
}

module _ {S : Type 0} (lib : Library S) (vendor : Vendor) (os : Os S) (mounter : Mounter S)
    (mounts : S → List MountPoint) where
  -- A call of the node service, whatever it returns. Kubernetes stages at a path where nothing is mounted.
  pub data Step (s : S) (t : S) : Type 0 where
    stage :
        (req : NodeStageVolumeRequest)
        → is_mounted req.staging_target_path (mounts s) ≡ false
        → t ≡ (node_stage_volume lib vendor os mounter req s).1
        → Step s t
    publish :
        (req : NodePublishVolumeRequest) → t ≡ (node_publish_volume os mounter req s).1 → Step s t
    unpublish :
        (req : NodeUnpublishVolumeRequest) → t ≡ (node_unpublish_volume mounter req s).1 → Step s t
    unstage :
        (req : NodeUnstageVolumeRequest) → t ≡ (node_unstage_volume mounter req s).1 → Step s t

  pub data Reach (s : S) : S → Type 0 where
    here : Reach s s
    next : {t u : S} → Reach s t → Step t u → Reach s u

module _ {S : Type 0} {lib : Library S} {os : Os S} {mounter : Mounter S}
    {mounts : S → List MountPoint} (reads : ReadsOnly lib) (vendor : Vendor)
    (is_os : IsOs os mounts) (is_mounter : IsMounter mounter mounts) where
  Step-NoStack :
      {s t : S} → Step lib vendor os mounter mounts s t → NoStack (mounts s) → NoStack (mounts t)
  Step-NoStack {s} {t} (stage req absent e) h =
      subst (λ u. NoStack (mounts u)) (sym e)
        ((node_stage_volume-Leads reads vendor is_os is_mounter (mounts s) h req absent).to s refl)
  Step-NoStack {s} {t} (publish req e) h =
      subst (λ u. NoStack (mounts u)) (sym e)
        ((node_publish_volume-Keeps is_os is_mounter req).at s h)
  Step-NoStack {s} {t} (unpublish req e) h =
      subst (λ u. NoStack (mounts u)) (sym e) ((node_unpublish_volume-Keeps is_mounter req).at s h)
  Step-NoStack {s} {t} (unstage req e) h =
      subst (λ u. NoStack (mounts u)) (sym e) ((node_unstage_volume-Keeps is_mounter req).at s h)

  -- Whatever calls are made, in whatever order and with whatever outcomes, no path of the node comes to
  -- have two mounts, if none had at first and each staging is asked for at a path where nothing is mounted.
  pub Reach-NoStack :
      {s t : S} → Reach lib vendor os mounter mounts s t → NoStack (mounts s) → NoStack (mounts t)
  Reach-NoStack here h = h
  Reach-NoStack (next r st) h = Step-NoStack st (Reach-NoStack r h)
