-- ===== src/Node/Staging.antt =====
-- What `NodeStageVolume` and `NodeUnstageVolume` do to the mounts (pkg/xenorchestra-csi/nodeserver.go).
use xenorchestra_csi_driver.Base.{
  ℕ, String, true, false, Option, none, some, List, [], ◌∷◌, ◌++◌, ok, Result, pure, check, map_err,
  refuse_if, ◌≡◌, ◌≢◌, refl, inl, inr, ◌==◌, string_eq, nat_eq, arith, Bool-cases, >>=-eq_ok, sym,
  subst, ap, ◌∙◌, if◌then◌else◌, ◌<>◌, value_at, StringMap,
}
use xenorchestra_csi_driver.Payloads.{Uuid}
use xenorchestra_csi_driver.Errors.{Code, internal, invalid_argument}
use xenorchestra_csi_driver.Library.{Library, Vendor}
use xenorchestra_csi_driver.Csi.{AccessType, block, unset, mount, NodeStageVolumeRequest}
use xenorchestra_csi_driver.World.{ReadsOnly}
use xenorchestra_csi_driver.World.Keeps.{
  Keeps-pure, Keeps-of_read, Keeps-check, Keeps-map_err, map_err-world, map_err-eq_ok,
  >>=-eq_ok_of_read, refuse_if-world,
}
use xenorchestra_csi_driver.XoClient.Storage.Reads.{is_sr_attached_to_vm_host-Keeps}
use xenorchestra_csi_driver.XoClient.{is_sr_attached_to_vm_host}
use xenorchestra_csi_driver.Mounter.{Mounter, Os}
use xenorchestra_csi_driver.Mounter.Stacking.{device_at_of_absent}
use xenorchestra_csi_driver.Mounter.Table.{
  MountPoint, IsMounter, IsOs, device_at, is_mounted, device_and_references,
}
use xenorchestra_csi_driver.Node.{
  get_mount, required, refuse_missing, fs_type_of, stage_device, node_stage_volume,
}

pub get_mount-world : {S : Type 0} (a : AccessType) (s : S) → (get_mount a s).1 ≡ s
get_mount-world (mount (some m)) s = refl
get_mount-world (mount none) s = refl
get_mount-world block s = refl
get_mount-world unset s = refl

pub required-world : {S A : Type 0} (o : Option A) (s : S) → (required o s).1 ≡ s
required-world none s = refl
required-world (some a) s = refl

refuse_if-eq_ok :
    {S : Type 0} (s : S) (text : String) {r : Unit {0}}
    → (refuse_if (text == "") invalid_argument s).0 ≡ ok r
    → text ≢ ""
refuse_if-eq_ok s text h = ground arith

-- What a staging that succeeds leaves: either the mount table named the device at the staging path, and
-- nothing changed, or the device's file was mounted there.
pub data Staged (device staging : String) (before after : List MountPoint) : Type 0 where
  named :
      device_at staging before ≡ some device → after ≡ before → Staged device staging before after
  added :
      after ≡ before ++ record { device = "/dev/" <> device; path = staging } ∷ []
      → Staged device staging before after

-- At a path where nothing was mounted there is one mount more.
pub staged_of_absent :
    {device staging : String} {before after : List MountPoint}
    → is_mounted staging before ≡ false
    → Staged device staging before after
    → after ≡ before ++ record { device = "/dev/" <> device; path = staging } ∷ []
staged_of_absent {staging = staging} {before = before} absent (named h e) =
    cc (device_at_of_absent staging before absent)
staged_of_absent absent (added e) = e

-- The comparison of the mounted device with a name that is not empty.
named-device :
    (o : Option String) (l : List MountPoint) (device : String)
    → device ≢ ""
    → ((device_and_references o l).0 == device) ≡ true
    → o ≡ some device
named-device none l device nonempty h = absurd (nonempty (ground arith))
named-device (some d) l device nonempty h = ground arith

-- What a staging that succeeds did: nothing, or a call that formatted and mounted the device's file.
pub data StageRun {S : Type 0} (mounter : Mounter S) (mounts : S → List MountPoint)
    (device staging : String) (s s' : S) : Type 0 where
  nothing :
      device_at staging (mounts s) ≡ some device
      → mounts s' ≡ mounts s
      → StageRun mounter mounts device staging s s'
  formatted :
      (fs_type : String) (u : S)
      → mounts u ≡ mounts s
      → (mounter.format_and_mount ("/dev/" <> device) staging fs_type [] u).0 ≡ ok tt
      → mounts s' ≡ mounts (mounter.format_and_mount ("/dev/" <> device) staging fs_type [] u).1
      → StageRun mounter mounts device staging s s'

module _ {S : Type 0} {lib : Library S} {os : Os S} {mounter : Mounter S}
    {mounts : S → List MountPoint} (reads : ReadsOnly lib) (vendor : Vendor)
    (is_os : IsOs os mounts) (is_mounter : IsMounter mounter mounts) where
  stat-mounts :
      (path : String) (s : S) → mounts (check (os.stat path) refuse_missing pure s).1 ≡ mounts s
  stat-mounts path s =
      (Keeps-check {P = λ t. mounts t ≡ mounts s} _ _ _
          (record { at = λ t h. is_os.mounts-stat path t ∙ h })
          (λ e. Keeps-of_read _ (λ t. ground arith)) Keeps-pure).at
        s refl

  sr-mounts :
      (vbd_id : Uuid) (s : S)
      → mounts
          (map_err {F = Code} (λ _. internal) (is_sr_attached_to_vm_host lib vendor vbd_id) s).1
        ≡ mounts s
  sr-mounts vbd_id s =
      (Keeps-map_err {P = λ t. mounts t ≡ mounts s} _ _
          (is_sr_attached_to_vm_host-Keeps reads vendor vbd_id)).at
        s refl

  stage_device-StageRun :
      (device staging fs_type : String) (context : StringMap) (s s' : S)
      → stage_device lib vendor os mounter ("/dev/" <> device) staging fs_type context s
        ≡ (ok tt, s')
      → StageRun mounter mounts device staging s s'
  unfolding stage_device
  stage_device-StageRun device staging fs_type context s s' h =
      let (_, _, h1) = >>=-eq_ok_of_read _ _ s (refuse_if-world _ _ s) h in
      let (vbd_id, _, h2) = >>=-eq_ok_of_read _ _ s (required-world _ s) h1 in
      let (_, _, h3) = >>=-eq_ok _ _ s h2 in
      let t =
        (map_err {F = Code} (λ _. internal) (is_sr_attached_to_vm_host lib vendor vbd_id) s).1 in
      let (_, _, h4) = >>=-eq_ok (check (os.stat ("/dev/" <> device)) refuse_missing pure) _ t h3 in
      let u = (check (os.stat ("/dev/" <> device)) refuse_missing pure t).1 in
      let run = mounter.format_and_mount ("/dev/" <> device) staging fs_type [] in
      let succeeded =
        map_err-eq_ok (λ _. internal) run u tt (ap (λ (p : Result Code (Unit {0}) × S). p.0) h4) in
      let after : mounts s' ≡ mounts (run u).1 =
        sym (ap (λ (p : Result Code (Unit {0}) × S). mounts p.1) h4)
        ∙ ap mounts (map_err-world {F = Code} (λ _. internal) run u) in
      formatted fs_type u (stat-mounts _ t ∙ sr-mounts vbd_id s) succeeded after

  -- The end of a staging, from the answer about the staging path on.
  stage_unless-StageRun :
      (device staging fs_type : String) (context : StringMap) (current : String × ℕ) (s s' : S)
      → device ≢ ""
      → current ≡ device_and_references (device_at staging (mounts s)) (mounts s)
      → (if current.0 == device
            then pure tt
            else stage_device lib vendor os mounter ("/dev/" <> device) staging fs_type context)
          s
        ≡ (ok tt, s')
      → StageRun mounter mounts device staging s s'
  stage_unless-StageRun device staging fs_type context current s s' nonempty e h =
      elim (Bool-cases (current.0 == device)) [
        | inl same ↦
            nothing
              (named-device (device_at staging (mounts s)) (mounts s) device nonempty
                (subst (λ (c : String × ℕ). (c.0 == device) ≡ true) e same))
              (ap (λ (p : Result Code (Unit {0}) × S). mounts p.1) (sym (rw same at h)))
        | inr other ↦ stage_device-StageRun device staging fs_type context s s' (rw other at h)
      ]

  pub node_stage_volume-StageRun :
      (req : NodeStageVolumeRequest) (s s' : S)
      → node_stage_volume lib vendor os mounter req s ≡ (ok tt, s')
      → StageRun mounter mounts (value_at "device" req.publish_context) req.staging_target_path s s'
  unfolding node_stage_volume
  node_stage_volume-StageRun req s s' h =
      let (_, _, h1) = >>=-eq_ok_of_read _ _ s (refuse_if-world _ _ s) h in
      let (_, _, h2) = >>=-eq_ok_of_read _ _ s (refuse_if-world _ _ s) h1 in
      let (_, _, h3) = >>=-eq_ok_of_read _ _ s (required-world _ s) h2 in
      let (m, _, h4) = >>=-eq_ok_of_read _ _ s (get_mount-world _ s) h3 in
      let (_, given, h5) = >>=-eq_ok_of_read _ _ s (refuse_if-world _ _ s) h4 in
      let (current, answered, h6) =
        >>=-eq_ok_of_read _ _ s
          (map_err-world (λ _. internal)
              (mounter.get_device_name_from_mount req.staging_target_path) s
            ∙ is_mounter.device-world req.staging_target_path s)
          h5 in
      stage_unless-StageRun (value_at "device" req.publish_context) req.staging_target_path
        (fs_type_of m) req.publish_context current s s' (refuse_if-eq_ok s _ given)
        (is_mounter.device_of_path req.staging_target_path s current
          (map_err-eq_ok (λ _. internal) _ s current answered))
        h6

  -- A staging that succeeds changes nothing where the mount table shows the very name of the request's
  -- device at the staging path, and otherwise mounts there, as the last mount, that device's file below /dev.
  pub node_stage_volume-Staged :
      (req : NodeStageVolumeRequest) (s s' : S)
      → node_stage_volume lib vendor os mounter req s ≡ (ok tt, s')
      → Staged
          (value_at "device" req.publish_context)
          req.staging_target_path
          (mounts s)
          (mounts s')
  node_stage_volume-Staged req s s' h = elim (node_stage_volume-StageRun req s s' h) [
    | nothing found same ↦ named found same
    | formatted fs_type u same succeeded after ↦
        (elim (is_mounter.mounts-format_and_mount ("/dev/" <> value_at "device" req.publish_context)
          req.staging_target_path fs_type [] u) [
            | inl (_, grown) ↦ added (
                after
                ∙ grown
                ∙ ap
                    (λ l.
                      l
                      ++ record {
                        device = "/dev/" <> value_at "device" req.publish_context;
                        path = req.staging_target_path;
                      }
                        ∷ [])
                    same)
            | inr (failed, _) ↦ absurd (failed tt succeeded)
          ])
  ]
