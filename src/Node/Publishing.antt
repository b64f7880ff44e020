-- ===== src/Node/Publishing.antt =====
-- What `NodePublishVolume` and `NodeUnpublishVolume` do to the mounts (pkg/xenorchestra-csi/nodeserver.go).
use xenorchestra_csi_driver.Base.{
  String, Bool, true, false, none, some, List, [], ◌∷◌, ◌++◌, contains, ok, Result, pure, check,
  map_err, ◌≡◌, ◌⊎◌, inl, inr, string_eq, arith, >>=-eq_ok, sym, subst, ap, ◌∙◌, if◌then◌else◌,
}
use xenorchestra_csi_driver.Errors.{Code, internal}
use xenorchestra_csi_driver.Csi.{NodePublishVolumeRequest, NodeUnpublishVolumeRequest}
use xenorchestra_csi_driver.World.Keeps.{map_err-world, map_err-eq_ok}
use xenorchestra_csi_driver.Mounter.{Mounter, Os}
use xenorchestra_csi_driver.Mounter.Table.{MountPoint, IsMounter, IsOs, device_at, is_mounted}
use xenorchestra_csi_driver.Mounter.Stacking.{is_mounted-append_self}
use xenorchestra_csi_driver.Mounter.Unmounting.{IsUnmounted, restored, unmount-mounts}
use xenorchestra_csi_driver.Node.{
  source_path_of, fs_type_of, mount_options, bind_mount, node_publish_volume, node_unpublish_volume,
}
use xenorchestra_csi_driver.Node.Requests.{
  node_publish_volume_of_IsPublishable, node_publish_volume_cases,
}

-- A target is mounted: nothing changed if it was before, and otherwise one mount came that shows the
-- device of the source, if the source is a mount.
pub data Mounted (source target : String) (before after : List MountPoint) : Type 0 where
  already : is_mounted target before ≡ true → after ≡ before → Mounted source target before after
  added :
      (device : String)
      → is_mounted target before ≡ false
      → (device_at source before ≡ none) ⊎ (device_at source before ≡ some device)
      → after ≡ before ++ record { device = device; path = target } ∷ []
      → Mounted source target before after

pub is_mounted-Mounted :
    {source target : String} {before after : List MountPoint}
    → Mounted source target before after
    → is_mounted target after ≡ true
is_mounted-Mounted {target = target} (already h e) = ap (is_mounted target) e ∙ h
is_mounted-Mounted {target = target} {before = before} (added device h k e) =
    ap (is_mounted target) e
    ∙ is_mounted-append_self (record { device = device; path = target }) before

pub bind-mount_options : (readonly : Bool) → contains (mount_options readonly) "bind" ≡ true
bind-mount_options true = ground arith
bind-mount_options false = ground arith

restored_of_Mounted :
    (source target : String) (before between after : List MountPoint)
    → is_mounted target before ≡ false
    → Mounted source target before between
    → IsUnmounted target between after
    → after ≡ before
restored_of_Mounted source target before between after vacant (already there e) gone = cc
restored_of_Mounted source target before between after vacant (added device _ shown e) gone =
    restored (record { device = device; path = target }) before between after vacant e gone

module _ {S : Type 0} {os : Os S} {mounter : Mounter S} {mounts : S → List MountPoint}
    (is_os : IsOs os mounts) (is_mounter : IsMounter mounter mounts) where
  mkdir-mounts :
      (path : String) (s : S)
      → mounts (map_err {F = Code} (λ _. internal) (os.mkdir_all path) s).1 ≡ mounts s
  mkdir-mounts path s =
      ap mounts (map_err-world (λ _. internal) (os.mkdir_all path) s)
      ∙ is_os.mounts-mkdir_all path s

  point-world :
      (path : String) (s : S)
      → (map_err {F = Code} (λ _. internal) (mounter.is_mount_point path) s).1 ≡ s
  point-world path s =
      map_err-world (λ _. internal) (mounter.is_mount_point path) s ∙ is_mounter.point-world path s

  module _ (source target fs_type : String) (options : List String)
      (bind : contains options "bind" ≡ true) where
    mount_unless :
        (seen : Bool) (s s' : S)
        → seen ≡ is_mounted target (mounts s)
        → (if seen
              then pure tt
              else map_err {F = Code} (λ _. internal) (mounter.mount source target fs_type options))
            s
          ≡ (ok tt, s')
        → Mounted source target (mounts s) (mounts s')
    mount_unless true s s' e h =
        already (sym e) (ap (λ (p : Result Code (Unit {0}) × S). mounts p.1) (sym h))
    mount_unless false s s' e h =
        let succeeded =
          map_err-eq_ok (λ _. internal) (mounter.mount source target fs_type options) s tt
            (ap (λ (p : Result Code (Unit {0}) × S). p.0) h) in
        let after =
          sym (ap (λ (p : Result Code (Unit {0}) × S). mounts p.1) h)
          ∙ ap mounts
              (map_err-world (λ _. internal) (mounter.mount source target fs_type options) s) in
        elim (is_mounter.mounts-mount source target fs_type options s bind) [
          | inl (device, shown, _, grown) ↦ added device (sym e) shown (after ∙ grown)
          | inr (failed, _) ↦ absurd (failed tt succeeded)
        ]

    bind_mount-Mounted :
        (s s' : S)
        → bind_mount os mounter source target fs_type options s ≡ (ok tt, s')
        → Mounted source target (mounts s) (mounts s')
    unfolding bind_mount
    bind_mount-Mounted s s' h =
        let (_, _, made) = >>=-eq_ok _ _ s h in
        let t = (map_err {F = Code} (λ _. internal) (os.mkdir_all target) s).1 in
        let (seen, answered, rest) =
          >>=-eq_ok (map_err (λ _. internal) (mounter.is_mount_point target)) _ t made in
        let known =
          is_mounter.mount_point target t seen (map_err-eq_ok (λ _. internal) _ t seen answered) in
        subst (λ l. Mounted source target l (mounts s')) (mkdir-mounts target s)
          (mount_unless seen t s' known (
            subst
              (λ u.
                (if seen
                    then pure tt
                    else map_err {F = Code} (λ _. internal)
                        (mounter.mount source target fs_type options))
                  u
                ≡ (ok tt, s'))
              (point-world target t) rest))

  -- After a publication that succeeds the target is mounted. A target that was mounted before is left
  -- as it is; otherwise one mount is added, of the device that is mounted at the source path, if one is.
  pub node_publish_volume-Mounted :
      (req : NodePublishVolumeRequest) (s s' : S)
      → node_publish_volume os mounter req s ≡ (ok tt, s')
      → Mounted (source_path_of req) req.target_path (mounts s) (mounts s')
  node_publish_volume-Mounted req s s' h = elim (node_publish_volume_cases os mounter req s) [
    | inl (m, p) ↦
        bind_mount-Mounted (source_path_of req) req.target_path (fs_type_of m)
          (mount_options req.readonly) (bind-mount_options req.readonly) s s'
          (sym (node_publish_volume_of_IsPublishable os mounter req s m p) ∙ h)
    | inr e ↦ cc
  ]

  bind_mount_of_mounted :
      (source target fs_type : String) (options : List String) (s : S) (seen : Bool)
      → is_mounted target (mounts s) ≡ true
      → (os.mkdir_all target s).0 ≡ ok tt
      → (mounter.is_mount_point target (os.mkdir_all target s).1).0 ≡ ok seen
      → bind_mount os mounter source target fs_type options s
        ≡ (ok tt, (mounter.is_mount_point target (os.mkdir_all target s).1).1)
  unfolding bind_mount check
  bind_mount_of_mounted source target fs_type options s seen there made answered =
      let known =
        is_mounter.mount_point target (os.mkdir_all target s).1 seen answered
        ∙ ap (is_mounted target) (is_os.mounts-mkdir_all target s)
        ∙ there in
      rw (made, answered, known)

  -- A publication that succeeded is repeated with success, and the second one changes no mount, if the
  -- target can be made and looked at.
  pub node_publish_volume_again :
      (req : NodePublishVolumeRequest) (s s' : S) (seen : Bool)
      → node_publish_volume os mounter req s ≡ (ok tt, s')
      → (os.mkdir_all req.target_path s').0 ≡ ok tt
      → (mounter.is_mount_point req.target_path (os.mkdir_all req.target_path s').1).0 ≡ ok seen
      → ((node_publish_volume os mounter req s').0 ≡ ok tt)
        × (mounts (node_publish_volume os mounter req s').1 ≡ mounts s')
  node_publish_volume_again req s s' seen h made answered =
      elim (node_publish_volume_cases os mounter req s) [
        | inl (m, p) ↦
            let again : node_publish_volume os mounter req s' ≡ (
              ok tt,
              (mounter.is_mount_point req.target_path (os.mkdir_all req.target_path s').1).1,
            ) =
              node_publish_volume_of_IsPublishable os mounter req s' m p
              ∙ bind_mount_of_mounted (source_path_of req) req.target_path (fs_type_of m)
                  (mount_options req.readonly) s' seen
                  (is_mounted-Mounted (node_publish_volume-Mounted req s s' h)) made answered in
            (
              ap (λ (p : Result Code (Unit {0}) × S). p.0) again,
              ap (λ (p : Result Code (Unit {0}) × S). mounts p.1) again
                  ∙ ap mounts
                      (is_mounter.point-world req.target_path (os.mkdir_all req.target_path s').1)
                  ∙ is_os.mounts-mkdir_all req.target_path s',
            )
        | inr e ↦ cc
      ]

  pub node_unpublish_volume-eq_ok :
      (undo : NodeUnpublishVolumeRequest) (s s' : S)
      → node_unpublish_volume mounter undo s ≡ (ok tt, s')
      → map_err {F = Code} (λ _. internal) (mounter.unmount undo.target_path) s ≡ (ok tt, s')
  unfolding node_unpublish_volume check
  node_unpublish_volume-eq_ok undo s s' h = ground arith

  -- A volume that is published at a target where nothing was mounted, and then unpublished from it, leaves
  -- the mounts as they were.
  node_unpublish_volume-node_publish_volume :
      (req : NodePublishVolumeRequest) (undo : NodeUnpublishVolumeRequest) (s s' s'' : S)
      → is_mounted req.target_path (mounts s) ≡ false
      → undo.target_path ≡ req.target_path
      → node_publish_volume os mounter req s ≡ (ok tt, s')
      → node_unpublish_volume mounter undo s' ≡ (ok tt, s'')
      → mounts s'' ≡ mounts s
  node_unpublish_volume-node_publish_volume req undo s s' s'' vacant same h k =
      let gone =
        unmount-mounts is_mounter undo.target_path s' s''
          (node_unpublish_volume-eq_ok undo s' s'' k) in
      restored_of_Mounted (source_path_of req) undo.target_path (mounts s) (mounts s') (mounts s'')
        (ap (λ t. is_mounted t (mounts s)) same ∙ vacant)
        (subst (λ t. Mounted (source_path_of req) t (mounts s) (mounts s')) (sym same)
          (node_publish_volume-Mounted req s s' h))
        gone
