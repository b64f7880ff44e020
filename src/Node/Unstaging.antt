-- ===== src/Node/Unstaging.antt =====
-- What `NodeUnstageVolume` does to the mounts (pkg/xenorchestra-csi/nodeserver.go).
use xenorchestra_csi_driver.Base.{
  Result, none, ℕ, ◌<◌, String, false, some, List, ok, map_err, ◌≡◌, refl, ◌==◌, string_eq, nat_eq,
  arith, sym, subst, ap, ◌∙◌,
}
use xenorchestra_csi_driver.Errors.{Code, internal, invalid_argument}
use xenorchestra_csi_driver.Csi.{NodeUnstageVolumeRequest}
use xenorchestra_csi_driver.World.Keeps.{
  Keeps-fail, Keeps-of_read, Keeps-check, Keeps-check_read, map_err-world, map_err-eq_ok,
  refuse_if-world, >>=-eq_ok_of_read,
}
use xenorchestra_csi_driver.Mounter.{Mounter}
use xenorchestra_csi_driver.Mounter.Table.{
  MountPoint, IsMounter, device_at, references, device_and_references,
}
use xenorchestra_csi_driver.Mounter.Stacking.{two-le-references}
use xenorchestra_csi_driver.Mounter.Unmounting.{IsUnmounted, unmount-mounts}
use xenorchestra_csi_driver.Node.{unstage_unreferenced, node_unstage_volume}

module _ {S : Type 0} {mounter : Mounter S} {mounts : S → List MountPoint}
    (is_mounter : IsMounter mounter mounts) where
  device-world :
      (path : String) (s : S)
      → (map_err {F = Code} (λ _. internal) (mounter.get_device_name_from_mount path) s).1 ≡ s
  device-world path s =
      map_err-world (λ _. internal) (mounter.get_device_name_from_mount path) s
      ∙ is_mounter.device-world path s

  device_of_path :
      (path : String) (s : S) (current : String × ℕ)
      → (map_err {F = Code} (λ _. internal) (mounter.get_device_name_from_mount path) s).0
        ≡ ok current
      → current ≡ device_and_references (device_at path (mounts s)) (mounts s)
  device_of_path path s current e =
      is_mounter.device_of_path path s current (map_err-eq_ok (λ _. internal) _ s current e)

  unstage_unreferenced_of_referenced :
      (path : String) (count : ℕ) (s : S)
      → 1 < count
      → (unstage_unreferenced mounter path count s).1 ≡ s
  unfolding unstage_unreferenced
  unstage_unreferenced_of_referenced path count s h = ground arith

  -- A device that is mounted at a second path, such as the target of a published volume, stays mounted at
  -- its staging path: `NodeUnstageVolume` then changes no mount, however it ends.
  pub node_unstage_volume_of_published :
      (req : NodeUnstageVolumeRequest) (device target : String) (s : S)
      → (req.staging_target_path == target) ≡ false
      → device_at req.staging_target_path (mounts s) ≡ some device
      → device_at target (mounts s) ≡ some device
      → mounts (node_unstage_volume mounter req s).1 ≡ mounts s
  unfolding node_unstage_volume
  node_unstage_volume_of_published req device target s apart staged published =
      let many : 1 < references device (mounts s) =
        two-le-references device req.staging_target_path target (mounts s) apart staged published in
      ap mounts (
        (Keeps-check {P = λ t. t ≡ s} _ _ _
            (Keeps-of_read _ (refuse_if-world (req.volume_id == "") invalid_argument)) Keeps-fail
            (λ _.
              Keeps-check _ _ _
                (Keeps-of_read _ (refuse_if-world (req.staging_target_path == "") invalid_argument))
                Keeps-fail
                (λ _.
                  Keeps-check_read _ _ _ (device-world req.staging_target_path) Keeps-fail
                    λ current t same answered.
                      let known : current ≡ device_and_references (some device) (mounts s) =
                        device_of_path req.staging_target_path t current answered
                        ∙ ap
                            (λ u.
                              device_and_references (device_at req.staging_target_path (mounts u))
                                (mounts u))
                            same
                        ∙ ap (λ o. device_and_references o (mounts s)) staged in
                      unstage_unreferenced_of_referenced req.staging_target_path current.1 t
                        (subst (λ (c : String × ℕ). 1 < c.1) (sym known) many)
                      ∙ same))).at
          s refl)

  unstage_unreferenced_of_none :
      (path : String) (s s' : S)
      → unstage_unreferenced mounter path 0 s ≡ (ok tt, s')
      → mounts s' ≡ mounts s
  unfolding unstage_unreferenced
  unstage_unreferenced_of_none path s s' h =
      ap (λ (p : Result Code (Unit {0}) × S). mounts p.1) (sym h)

  unstage_unreferenced-eq_ok :
      (path : String) (s s' : S)
      → unstage_unreferenced mounter path 1 s ≡ (ok tt, s')
      → map_err {F = Code} (λ _. internal) (mounter.unmount path) s ≡ (ok tt, s')
  unfolding unstage_unreferenced
  unstage_unreferenced-eq_ok path s s' h = h

  -- An unstaging that succeeds leaves nothing mounted at the staging path, if the device that was mounted
  -- there has no other mount, and takes away no more than one mount.
  pub node_unstage_volume_of_last :
      (req : NodeUnstageVolumeRequest) (device : String) (s s' : S)
      → device_at req.staging_target_path (mounts s) ≡ some device
      → references device (mounts s) ≡ 1
      → node_unstage_volume mounter req s ≡ (ok tt, s')
      → IsUnmounted req.staging_target_path (mounts s) (mounts s')
  unfolding node_unstage_volume
  node_unstage_volume_of_last req device s s' staged last h =
      let (_, _, h1) = >>=-eq_ok_of_read _ _ s (refuse_if-world _ _ s) h in
      let (_, _, h2) = >>=-eq_ok_of_read _ _ s (refuse_if-world _ _ s) h1 in
      let (current, answered, h3) =
        >>=-eq_ok_of_read _ _ s (device-world req.staging_target_path s) h2 in
      let count : current.1 ≡ 1 =
        ap (λ (c : String × ℕ). c.1)
          (device_of_path req.staging_target_path s current answered
            ∙ ap (λ o. device_and_references o (mounts s)) staged)
        ∙ last in
      unmount-mounts is_mounter req.staging_target_path s s' (
        unstage_unreferenced-eq_ok req.staging_target_path s s' (
          subst (λ n. unstage_unreferenced mounter req.staging_target_path n s ≡ (ok tt, s')) count
            h3))

  -- Where nothing is mounted at the staging path, nothing is done.
  pub node_unstage_volume_of_absent :
      (req : NodeUnstageVolumeRequest) (s s' : S)
      → device_at req.staging_target_path (mounts s) ≡ none
      → node_unstage_volume mounter req s ≡ (ok tt, s')
      → mounts s' ≡ mounts s
  unfolding node_unstage_volume
  node_unstage_volume_of_absent req s s' nowhere h =
      let (_, _, h1) = >>=-eq_ok_of_read _ _ s (refuse_if-world _ _ s) h in
      let (_, _, h2) = >>=-eq_ok_of_read _ _ s (refuse_if-world _ _ s) h1 in
      let (current, answered, h3) =
        >>=-eq_ok_of_read _ _ s (device-world req.staging_target_path s) h2 in
      let count : current.1 ≡ 0 =
        ap (λ (c : String × ℕ). c.1)
          (device_of_path req.staging_target_path s current answered
            ∙ ap (λ o. device_and_references o (mounts s)) nowhere) in
      unstage_unreferenced_of_none req.staging_target_path s s' (
        subst (λ n. unstage_unreferenced mounter req.staging_target_path n s ≡ (ok tt, s')) count
          h3)
