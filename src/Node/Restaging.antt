-- ===== src/Node/Restaging.antt =====
-- A staging that is asked for again (pkg/xenorchestra-csi/nodeserver.go).
use xenorchestra_csi_driver.Base.{
  ℕ, suc, String, false, some, List, [], ◌∷◌, ◌++◌, ok, ◌≡◌, ◌≢◌, arith, ap, ◌∙◌, ◌<>◌, value_at,
}
use xenorchestra_csi_driver.Csi.{NodeStageVolumeRequest}
use xenorchestra_csi_driver.Library.{Library, Vendor}
use xenorchestra_csi_driver.World.{ReadsOnly}
use xenorchestra_csi_driver.Mounter.{Mounter, Os}
use xenorchestra_csi_driver.Mounter.Table.{MountPoint, IsMounter, IsOs, device_at, is_mounted}
use xenorchestra_csi_driver.Mounter.Stacking.{device_at-append_self}
use xenorchestra_csi_driver.Node.{node_stage_volume}
use xenorchestra_csi_driver.Node.Staging.{
  nothing, formatted, node_stage_volume-StageRun, node_stage_volume-Staged, staged_of_absent,
}

abbrev text_length : String → ℕ
text_length String.[] = 0
text_length (String.◌∷◌ c s) = suc (text_length s)

-- A device's file is not named like the device.
dev-ne : (device : String) → "/dev/" <> device ≢ device
dev-ne device h = absurd (longer (ap text_length h))
  where
    longer : suc (suc (suc (suc (suc (text_length device))))) ≢ text_length device
    longer e = omega arith

-- mount(2), EBUSY: what is the top mount at a path is not mounted there once more.
pub record IsBusy {S : Type 0} (mounter : Mounter S) (mounts : S → List MountPoint) : Type 0 where
  pub refused :
      (source target fs_type : String) (options : List String) (s : S)
      → device_at target (mounts s) ≡ some source
      → (mounter.format_and_mount source target fs_type options s).0 ≢ ok tt

module _ {S : Type 0} {lib : Library S} {os : Os S} {mounter : Mounter S}
    {mounts : S → List MountPoint} (reads : ReadsOnly lib) (vendor : Vendor)
    (is_os : IsOs os mounts) (is_mounter : IsMounter mounter mounts) where
  -- A staging that succeeded at a path where nothing was mounted does not succeed when it is asked for again, if
  -- a device is not mounted a second time over itself: the driver does not find its own mount, and calls for it
  -- once more.
  pub node_stage_volume_again :
      (busy : IsBusy mounter mounts) (req : NodeStageVolumeRequest) (s s1 : S)
      → is_mounted req.staging_target_path (mounts s) ≡ false
      → node_stage_volume lib vendor os mounter req s ≡ (ok tt, s1)
      → (node_stage_volume lib vendor os mounter req s1).0 ≢ ok tt
  node_stage_volume_again busy req s s1 absent h1 h2 =
      let device = value_at "device" req.publish_context in
      let m : MountPoint = record { device = "/dev/" <> device; path = req.staging_target_path } in
      let first : mounts s1 ≡ mounts s ++ m ∷ [] =
        staged_of_absent absent
          (node_stage_volume-Staged reads vendor is_os is_mounter req s s1 h1) in
      let shown : device_at m.path (mounts s1) ≡ some m.device =
        ap (device_at m.path) first ∙ device_at-append_self m (mounts s) absent in
      let s2 = (node_stage_volume lib vendor os mounter req s1).1 in
      elim (node_stage_volume-StageRun reads vendor is_os is_mounter req s1 s2 (λ i. (h2 i, s2))) [
        | nothing found _ ↦ absurd (dev-ne device (cc (shown, found)))
        | formatted fs_type u same succeeded _ ↦ absurd (
            busy.refused m.device m.path fs_type [] u (ap (device_at m.path) same ∙ shown)
              succeeded)
      ]
