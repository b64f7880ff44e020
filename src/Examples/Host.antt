-- ===== src/Examples/Host.antt =====
-- A node in memory: its mount table, one device and the calls on them.
use xenorchestra_csi_driver.Node.Restaging.{IsBusy}
use xenorchestra_csi_driver.Base.{
  Bool-cases, ◌⊎◌, ◌≢◌, inl, inr, true, arith, some, option_eq, String, false, Option, none, some,
  List, [], ◌∷◌, ◌++◌, Result, ok, err, ◌≡◌, refl, inl, inr, ◌⊎◌, ◌==◌, string_eq, if◌then◌else◌,
  ok-injective, sym, arith,
}
use xenorchestra_csi_driver.Mounter.{MountUtils, Os, HostError, not_exist, safe_mounter}
use xenorchestra_csi_driver.Mounter.Table.{
  MountPoint, IsMounter, IsOs, device_at, is_mounted, without_top, device_and_references,
}
use xenorchestra_csi_driver.Examples.Memory.{Store}

abbrev shown_device : Option String → String
shown_device none = "none"
shown_device (some device) = device

shown_cases : (o : Option String) → (o ≡ none) ⊎ (o ≡ some (shown_device o))
shown_cases none = inl refl
shown_cases (some device) = inr refl

abbrev added : String → String → Store → Store
added device path s = record s { mounts = s.mounts ++ record { device = device; path = path } ∷ [] }

abbrev pub utils : MountUtils Store
utils = record {
  format_and_mount = λ source target fs_type options s.
      if device_at target s.mounts == some source
      then (err "mount(2): EBUSY", s)
      else (ok tt, added source target s);
  cleanup_mount_point = λ target extensive s. (
    if is_mounted target (without_top target s.mounts) then err "failed to unmount" else ok tt,
    record s { mounts = without_top target s.mounts },
  );
  mount = λ source target fs_type options s.
      (ok tt, added (shown_device (device_at source s.mounts)) target s);
  get_device_name_from_mount =
      λ path s. (ok (device_and_references (device_at path s.mounts) s.mounts), s);
  is_mount_point = λ path s. (ok (is_mounted path s.mounts), s);
}

abbrev pub os : Os Store
os = record {
  mkdir_all = λ path s. (ok tt, s);
  stat = λ path s. (if path == "/dev/xvdb" then ok tt else err not_exist, s);
}

abbrev pub mounts : Store → List MountPoint
mounts s = s.mounts

pub os-IsOs : IsOs os mounts
os-IsOs = record { mounts-mkdir_all = λ path s. refl; mounts-stat = λ path s. refl }

unmounted :
    (target : String) (l : List MountPoint)
    → ◌≡◌ {A = Result HostError (Unit {0})}
        (if is_mounted target (without_top target l) then err "failed to unmount" else ok tt)
        (ok tt)
    → is_mounted target (without_top target l) ≡ false
unmounted target l h = ground arith

-- A new mount, unless its source is the top mount there.
mounts-mounted :
    (source target fs_type : String) (options : List String) (s : Store)
    → (((utils.format_and_mount source target fs_type options s).0 ≡ ok tt)
        × (mounts (utils.format_and_mount source target fs_type options s).1
            ≡ mounts s ++ record { device = source; path = target } ∷ []))
      ⊎ (((r : Unit {0}) → (utils.format_and_mount source target fs_type options s).0 ≢ ok r)
          × (mounts (utils.format_and_mount source target fs_type options s).1 ≡ mounts s))
mounts-mounted source target fs_type options s =
    elim (Bool-cases (device_at target s.mounts == some source)) [
      | inl busy ↦ inr ((λ r e. let no = rw busy at e in cc), rw busy refl)
      | inr free ↦ inl (rw free refl, rw free refl)
    ]

pub utils-IsBusy : IsBusy (safe_mounter utils) mounts
unfolding safe_mounter option_eq
utils-IsBusy = record {
  refused = λ source target fs_type options s there done.
      let busy : (device_at target s.mounts == some source) ≡ true = ground (arith, there) in
      let no = rw busy at done in cc;
}

pub utils-IsMounter : IsMounter (safe_mounter utils) mounts
unfolding safe_mounter
utils-IsMounter = record {
  mounts-format_and_mount = mounts-mounted;
  mounts-mount = λ source target fs_type options s bind. inl (
    shown_device (device_at source s.mounts),
    shown_cases (device_at source s.mounts),
    refl,
    refl,
  );
  mounts-unmount = λ target s. inr refl;
  unmounted = λ target s h. unmounted target s.mounts h;
  device-world = λ path s. refl;
  device_of_path = λ path s answer h. ok-injective (sym h);
  point-world = λ path s. refl;
  mount_point = λ path s answer h. ok-injective (sym h);
}
