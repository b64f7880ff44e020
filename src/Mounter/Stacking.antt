-- ===== src/Mounter/Stacking.antt =====
-- Tables of mounts in which no mount hides another.
use xenorchestra_csi_driver.Base.{
  suc, String, true, false, ◌||◌, none, some, List, [], ◌∷◌, ◌++◌, ◌≡◌, refl, ◌==◌, string_eq,
  arith, ◌∙◌, Bool-cases, inl, inr, ◌≤◌, ◌<◌,
}
use xenorchestra_csi_driver.Mounter.Table.{
  MountPoint, device_at, is_mounted, references, without_top,
}

-- No path has two mounts.
abbrev pub NoStack : List MountPoint → Type 0
NoStack [] = Unit
NoStack (m ∷ mounts) = (is_mounted m.path mounts ≡ false) × NoStack mounts

pub is_mounted-append :
    (path : String) (m : MountPoint) (l : List MountPoint)
    → is_mounted path (l ++ m ∷ []) ≡ (is_mounted path l || m.path == path)
is_mounted-append path m [] = ground arith
is_mounted-append path m (x ∷ l) = ground (arith, is_mounted-append path m l)

pub is_mounted-append_self :
    (m : MountPoint) (l : List MountPoint) → is_mounted m.path (l ++ m ∷ []) ≡ true
is_mounted-append_self m l = is_mounted-append m.path m l ∙ ground arith

pub NoStack-append :
    (l : List MountPoint) (m : MountPoint)
    → is_mounted m.path l ≡ false
    → NoStack l
    → NoStack (l ++ m ∷ [])
NoStack-append [] m h n = (refl, tt)
NoStack-append (x ∷ l) m h n =
    (is_mounted-append x.path m l ∙ ground (arith, n.0), NoStack-append l m (ground arith) n.1)

-- Nothing goes where nothing is mounted.
pub without_top_of_absent :
    (path : String) (l : List MountPoint) → is_mounted path l ≡ false → without_top path l ≡ l
without_top_of_absent path [] h = refl
without_top_of_absent path (m ∷ l) h = ground (arith, without_top_of_absent path l)

-- An unmounting undoes the last mount.
pub without_top-append :
    (m : MountPoint) (l : List MountPoint)
    → is_mounted m.path l ≡ false
    → without_top m.path (l ++ m ∷ []) ≡ l
without_top-append m [] h = ground arith
without_top-append m (x ∷ l) h = ground (arith, is_mounted-append_self m l, without_top-append m l)

is_mounted-without_top :
    (other path : String) (l : List MountPoint)
    → is_mounted other l ≡ false
    → is_mounted other (without_top path l) ≡ false
is_mounted-without_top other path [] h = refl
is_mounted-without_top other path (m ∷ l) h = ground (arith, is_mounted-without_top other path l)

pub NoStack-without_top :
    (path : String) (l : List MountPoint) → NoStack l → NoStack (without_top path l)
NoStack-without_top path [] h = tt
NoStack-without_top path (m ∷ l) h = elim (Bool-cases (is_mounted path l)) [
  | inl later ↦ rw later (is_mounted-without_top m.path path l h.0, NoStack-without_top path l h.1)
  | inr last ↦ elim (Bool-cases (m.path == path)) [
    | inl here ↦ rw (last, here) h.1
    | inr other ↦ rw (last, other) (h.0, h.1)
  ]
]

-- A device that is mounted at two paths has two references.
one-le-references :
    (device path : String) (l : List MountPoint)
    → device_at path l ≡ some device
    → 1 ≤ references device l
one-le-references device path [] h = cc
one-le-references device path (m ∷ l) h = ground (arith, one-le-references device path l)

pub two-le-references :
    (device p q : String) (l : List MountPoint)
    → (p == q) ≡ false
    → device_at p l ≡ some device
    → device_at q l ≡ some device
    → 1 < references device l
two-le-references device p q [] apart h k = cc
two-le-references device p q (m ∷ l) apart h k = ground (
  arith,
  two-le-references device p q l,
  one-le-references device p l,
  one-le-references device q l,
)

pub device_at_of_absent :
    (path : String) (l : List MountPoint) → is_mounted path l ≡ false → device_at path l ≡ none
device_at_of_absent path [] h = refl
device_at_of_absent path (m ∷ l) h = ground (arith, device_at_of_absent path l)

pub device_at-append_self :
    (m : MountPoint) (l : List MountPoint)
    → is_mounted m.path l ≡ false
    → device_at m.path (l ++ m ∷ []) ≡ some m.device
device_at-append_self m [] h = ground arith
device_at-append_self m (x ∷ l) h = ground (arith, device_at-append_self m l)

pub references-append_self :
    (m : MountPoint) (l : List MountPoint)
    → references m.device (l ++ m ∷ []) ≡ suc (references m.device l)
references-append_self m [] = ground arith
references-append_self m (x ∷ l) = ground (arith, references-append_self m l)
