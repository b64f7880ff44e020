-- ===== src/Mounter/Unmounting.antt =====
-- What an unmounting that succeeds leaves.
use xenorchestra_csi_driver.Base.{
  String, false, List, [], ◌∷◌, ◌++◌, ok, Result, map_err, ◌≡◌, ◌⊎◌, inl, inr, sym, subst, ap, ◌∙◌,
}
use xenorchestra_csi_driver.Errors.{Code, internal}
use xenorchestra_csi_driver.World.Keeps.{map_err-world, map_err-eq_ok}
use xenorchestra_csi_driver.Mounter.{Mounter}
use xenorchestra_csi_driver.Mounter.Table.{MountPoint, IsMounter, is_mounted, without_top}
use xenorchestra_csi_driver.Mounter.Stacking.{is_mounted-append_self, without_top-append}

-- Nothing is mounted at the path, and no more than one mount went.
pub record IsUnmounted (path : String) (before after : List MountPoint) : Type 0 where
  pub vacant : is_mounted path after ≡ false
  pub outcome : (after ≡ before) ⊎ (after ≡ without_top path before)

-- It undoes a mounting at a path where nothing was mounted.
pub restored :
    (m : MountPoint) (before between after : List MountPoint)
    → is_mounted m.path before ≡ false
    → between ≡ before ++ m ∷ []
    → IsUnmounted m.path between after
    → after ≡ before
restored m before between after absent e gone = elim gone.outcome [
  | inl kept ↦ cc (ap (is_mounted m.path) (kept ∙ e), is_mounted-append_self m before, gone.vacant)
  | inr taken ↦ taken ∙ ap (without_top m.path) e ∙ without_top-append m before absent
]

module _ {S : Type 0} {mounter : Mounter S} {mounts : S → List MountPoint}
    (is_mounter : IsMounter mounter mounts) where
  pub unmount-mounts :
      (target : String) (s s' : S)
      → map_err {F = Code} (λ _. internal) (mounter.unmount target) s ≡ (ok tt, s')
      → IsUnmounted target (mounts s) (mounts s')
  unmount-mounts target s s' h =
      let after : mounts (mounter.unmount target s).1 ≡ mounts s' =
        sym (ap mounts (map_err-world {F = Code} (λ _. internal) (mounter.unmount target) s))
        ∙ ap (λ (p : Result Code (Unit {0}) × S). mounts p.1) h in
      let succeeded =
        map_err-eq_ok (λ _. internal) (mounter.unmount target) s tt
          (ap (λ (p : Result Code (Unit {0}) × S). p.0) h) in
      record {
        vacant =
            subst (λ l. is_mounted target l ≡ false) after
              (is_mounter.unmounted target s succeeded);
        outcome =
            subst (λ l. (l ≡ mounts s) ⊎ (l ≡ without_top target (mounts s))) after
              (is_mounter.mounts-unmount target s);
      }
