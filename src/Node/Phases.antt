-- ===== src/Node/Phases.antt =====
-- The contract of the node service for one volume: a small state machine, which the calls implement.
pub mod Calls
use xenorchestra_csi_driver.Base.{
  String, Bool, true, false, Option, none, some, List, [], ◌∷◌, ◌++◌, ok, Exec, pure, fail, check,
  map_err, refuse_if, ◌>>=◌, ◌>>◌, ◌≡◌, ◌≢◌, refl, inl, inr, ◌==◌, string_eq, arith, sym, subst, ap,
  ◌∙◌, ◌<>◌, ◌||◌, >>=-eq_ok, if◌then◌else◌, ℕ, Result, suc,
}
use xenorchestra_csi_driver.Errors.{Code, internal}
use xenorchestra_csi_driver.Library.{Library, Vendor}
use xenorchestra_csi_driver.World.{ReadsOnly}
use xenorchestra_csi_driver.Mounter.{Mounter, Os}
use xenorchestra_csi_driver.Mounter.Table.{
  MountPoint, IsMounter, IsOs, device_at, is_mounted, references,
}
use xenorchestra_csi_driver.Mounter.Stacking.{
  is_mounted-append, is_mounted-append_self, device_at_of_absent, device_at-append_self,
  references-append_self, without_top_of_absent,
}
use xenorchestra_csi_driver.Mounter.Unmounting.{IsUnmounted, restored, unmount-mounts}
use xenorchestra_csi_driver.Node.{
  source_path_of, node_publish_volume, node_unpublish_volume, node_stage_volume,
  node_unstage_volume,
}
use xenorchestra_csi_driver.Node.Publishing.{
  Mounted, already, added, node_publish_volume-Mounted, node_unpublish_volume-eq_ok,
}
use xenorchestra_csi_driver.Node.Staging.{node_stage_volume-Staged, staged_of_absent}
use xenorchestra_csi_driver.Node.Unstaging.{
  node_unstage_volume_of_published, node_unstage_volume_of_last,
}
use xenorchestra_csi_driver.Node.Lifecycle.{Life, IsUnused, device_path}

pub data Phase : Type 0 where
  absent staged published : Phase

pub data Call : Type 0 where
  stage_call publish_call unpublish_call unstage_call : Call

-- What a call makes of the volume; none where the call is not to be made.
abbrev pub next_phase : Phase → Call → Option Phase
next_phase absent stage_call = some staged
next_phase absent publish_call = none
next_phase absent unpublish_call = some absent
next_phase absent unstage_call = some absent
next_phase staged stage_call = none
next_phase staged publish_call = some published
next_phase staged unpublish_call = some staged
next_phase staged unstage_call = some absent
next_phase published stage_call = none
next_phase published publish_call = some published
next_phase published unpublish_call = some staged
next_phase published unstage_call = some published

abbrev pub staging_mount : Life → MountPoint
staging_mount life = record {
  device = device_path life.stage;
  path = life.stage.staging_target_path;
}

abbrev pub target_mount : Life → MountPoint
target_mount life = record { device = device_path life.stage; path = life.publish.target_path }

-- The mounts that a phase stands for, after those of others.
abbrev pub mounts_in : Life → List MountPoint → Phase → List MountPoint
mounts_in life l absent = l
mounts_in life l staged = l ++ staging_mount life ∷ []
mounts_in life l published = (l ++ staging_mount life ∷ []) ++ target_mount life ∷ []

pub vacated :
    (path : String) (before after : List MountPoint)
    → is_mounted path before ≡ false
    → IsUnmounted path before after
    → after ≡ before
vacated path before after h gone = elim gone.outcome [
  | inl e ↦ e
  | inr e ↦ e ∙ without_top_of_absent path before h
]

device_at-append :
    (path device : String) (l : List MountPoint) (m : MountPoint)
    → device_at path l ≡ some device
    → device_at path (l ++ m ∷ []) ≡ some device
device_at-append path device [] m h = cc
device_at-append path device (x ∷ l) m h = ground (arith, device_at-append path device l m)

module _ (life : Life) (l : List MountPoint) (unused : IsUnused life l) where
  pub target_free : is_mounted life.publish.target_path (mounts_in life l staged) ≡ false
  target_free =
      is_mounted-append life.publish.target_path (staging_mount life) l
      ∙ cc (unused.target, life.apart)

  pub staging_shown :
      device_at life.stage.staging_target_path (mounts_in life l staged)
      ≡ some (device_path life.stage)
  staging_shown = device_at-append_self (staging_mount life) l unused.staging

  pub staging_still_shown :
      device_at life.stage.staging_target_path (mounts_in life l published)
      ≡ some (device_path life.stage)
  staging_still_shown =
      device_at-append life.stage.staging_target_path (device_path life.stage)
        (mounts_in life l staged) (target_mount life) staging_shown

  pub target_shown :
      device_at life.publish.target_path (mounts_in life l published)
      ≡ some (device_path life.stage)
  target_shown = device_at-append_self (target_mount life) (mounts_in life l staged) target_free

  pub published_of_Mounted :
      (after : List MountPoint)
      → Mounted
          (life.stage.staging_target_path)
          life.publish.target_path
          (mounts_in life l staged)
          after
      → after ≡ mounts_in life l published
  published_of_Mounted after (already there e) = cc (target_free, there)
  published_of_Mounted after (added device vacant shown e) = elim shown [
    | inl nowhere ↦ cc (staging_shown, nowhere)
    | inr it ↦ cc (e, it, staging_shown)
  ]

  pub still_published_of_Mounted :
      (source : String) (after : List MountPoint)
      → Mounted source life.publish.target_path (mounts_in life l published) after
      → after ≡ mounts_in life l published
  still_published_of_Mounted source after (already there e) = e
  still_published_of_Mounted source after (added device vacant shown e) =
      cc (vacant, is_mounted-append_self (target_mount life) (mounts_in life l staged))
