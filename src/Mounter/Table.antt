-- ===== src/Mounter/Table.antt =====
-- What the node service relies on of the host: the mounts that there are, in the order of /proc/mounts,
-- and the documented effects of the calls on them. Nobody else mounts during a call; any call may fail.
use xenorchestra_csi_driver.Base.{
  ℕ, suc, String, Bool, true, false, Option, none, some, List, [], ◌∷◌, ◌++◌, contains, any, ok,
  ◌≡◌, ◌≢◌, ◌⊎◌, ◌==◌, string_eq, if◌then◌else◌,
}
use xenorchestra_csi_driver.Mounter.{Mounter, Os}

pub record MountPoint : Type 0 where
  pub device : String
  pub path : String

-- The first mount at a path.
abbrev pub device_at : String → List MountPoint → Option String
device_at path [] = none
device_at path (m ∷ mounts) = if m.path == path then some m.device else device_at path mounts

abbrev pub is_at : String → MountPoint → Bool
is_at path m = m.path == path

abbrev pub is_mounted : String → List MountPoint → Bool
is_mounted path = any (is_at path)

-- What an unmounting leaves: a path may have several mounts, and the last is the top one.
abbrev pub without_top : String → List MountPoint → List MountPoint
without_top path [] = []
without_top path (m ∷ mounts) =
    let later = without_top path mounts in
    if is_mounted path mounts then m ∷ later else if m.path == path then mounts else m ∷ mounts

-- How many mounts a device has.
abbrev pub references : String → List MountPoint → ℕ
references device [] = 0
references device (m ∷ mounts) =
    let others = references device mounts in if m.device == device then suc others else others

-- What is known of a path's device: its name and its references, or neither.
abbrev pub device_and_references : Option String → List MountPoint → String × ℕ
device_and_references none mounts = ("", 0)
device_and_references (some device) mounts = (device, references device mounts)

module _ {S : Type 0} (os : Os S) (mounts : S → List MountPoint) where
  pub record IsOs : Type 0 where
    pub mounts-mkdir_all : (path : String) (s : S) → mounts (os.mkdir_all path s).1 ≡ mounts s
    pub mounts-stat : (path : String) (s : S) → mounts (os.stat path s).1 ≡ mounts s

module _ {S : Type 0} (mounter : Mounter S) (mounts : S → List MountPoint) where
  pub record IsMounter : Type 0 where
    -- A new mount comes last, or the call fails and there is none.
    pub mounts-format_and_mount :
        (source target fs_type : String) (options : List String) (s : S)
        → (((mounter.format_and_mount source target fs_type options s).0 ≡ ok tt)
            × (mounts (mounter.format_and_mount source target fs_type options s).1
                ≡ mounts s ++ record { device = source; path = target } ∷ []))
          ⊎ (((r : Unit {0}) → (mounter.format_and_mount source target fs_type options s).0 ≢ ok r)
              × (mounts (mounter.format_and_mount source target fs_type options s).1 ≡ mounts s))
    -- A bind mount shows the device of what it binds.
    pub mounts-mount :
        (source target fs_type : String) (options : List String) (s : S)
        → contains options "bind" ≡ true
        → ((device : String) × ((device_at source (mounts s) ≡ none)
              ⊎ (device_at source (mounts s) ≡ some device))
            × ((mounter.mount source target fs_type options s).0 ≡ ok tt)
            × (mounts (mounter.mount source target fs_type options s).1
                ≡ mounts s ++ record { device = device; path = target } ∷ []))
          ⊎ (((r : Unit {0}) → (mounter.mount source target fs_type options s).0 ≢ ok r)
              × (mounts (mounter.mount source target fs_type options s).1 ≡ mounts s))
    -- The top mount at the path goes, or nothing; after a success nothing is mounted there.
    pub mounts-unmount :
        (target : String) (s : S)
        → (mounts (mounter.unmount target s).1 ≡ mounts s)
          ⊎ (mounts (mounter.unmount target s).1 ≡ without_top target (mounts s))
    pub unmounted :
        (target : String) (s : S)
        → (mounter.unmount target s).0 ≡ ok tt
        → is_mounted target (mounts (mounter.unmount target s).1) ≡ false
    -- The calls that only read.
    pub device-world : (path : String) (s : S) → (mounter.get_device_name_from_mount path s).1 ≡ s
    pub device_of_path :
        (path : String) (s : S) (answer : String × ℕ)
        → (mounter.get_device_name_from_mount path s).0 ≡ ok answer
        → answer ≡ device_and_references (device_at path (mounts s)) (mounts s)
    pub point-world : (path : String) (s : S) → (mounter.is_mount_point path s).1 ≡ s
    pub mount_point :
        (path : String) (s : S) (answer : Bool)
        → (mounter.is_mount_point path s).0 ≡ ok answer
        → answer ≡ is_mounted path (mounts s)
