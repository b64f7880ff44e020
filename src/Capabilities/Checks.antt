-- ===== src/Capabilities/Checks.antt =====
-- What the checks of capabilities accept.
use xenorchestra_csi_driver.Base.{
  Option, none, some, List, [], ◌∷◌, ok, ◌≡◌, refl, ◌≢◌, ◌↔◌, All, arith, panic, is_err, false,
}
use xenorchestra_csi_driver.Csi.{
  VolumeCapability, AccessType, mount, MountVolume, single_node_writer, AccessMode,
}
use xenorchestra_csi_driver.Capabilities.{
  validate_volume_capability, validate_volume_capabilities, validate_each, check_access, get_mode,
}

-- A mount by a single writer.
pub data IsSupported : Option VolumeCapability → Type 0 where
  supported :
      {c : VolumeCapability} (m : Option MountVolume)
      → c.access_type ≡ mount m
      → c.access_mode ≡ some single_node_writer
      → IsSupported (some c)

check_access-eq_ok :
    (a : AccessType) (mode : Option AccessMode)
    → check_access a (get_mode mode) ≡ ok tt
    → (m : Option MountVolume) × (a ≡ mount m) × (mode ≡ some single_node_writer)
check_access-eq_ok (mount m) (some single_node_writer) h = (m, refl, refl)
check_access-eq_ok _ _ h = cc

accepted-IsSupported :
    (c : Option VolumeCapability) → validate_volume_capability c ≡ ok tt → IsSupported c
unfolding validate_volume_capability
accepted-IsSupported none h = cc
accepted-IsSupported (some c) h =
    let (m, e, f) = check_access-eq_ok c.access_type c.access_mode h in supported m e f

IsSupported-accepted :
    (c : Option VolumeCapability) → IsSupported c → validate_volume_capability c ≡ ok tt
unfolding validate_volume_capability
IsSupported-accepted _ (supported m e f) = rw (e, f)

validate_each-All :
    (cs : List (Option VolumeCapability)) → validate_each cs ≡ ok tt → All IsSupported cs
unfolding validate_each
validate_each-All [] h = tt
validate_each-All (c ∷ cs) h =
    (accepted-IsSupported c (ground arith), validate_each-All cs (ground arith))

All-validate_each :
    (cs : List (Option VolumeCapability)) → All IsSupported cs → validate_each cs ≡ ok tt
unfolding validate_each
All-validate_each [] h = refl
All-validate_each (c ∷ cs) h = ground (arith, IsSupported-accepted c h.0, All-validate_each cs h.1)

-- Capabilities are accepted exactly when there is at least one and each is a mount by a single writer
-- on one node.
pub validate_volume_capabilities_iff :
    (cs : List (Option VolumeCapability))
    → (validate_volume_capabilities cs ≡ ok tt) ↔ ((cs ≢ []) × All IsSupported cs)
unfolding validate_volume_capabilities
validate_volume_capabilities_iff [] = (λ h. cc, λ h. absurd (h.0 refl))
validate_volume_capabilities_iff (c ∷ cs) =
    (λ h. (λ e. cc, validate_each-All (c ∷ cs) h), λ h. All-validate_each (c ∷ cs) h.1)

validate_volume_capability-cases :
    (c : Option VolumeCapability) → validate_volume_capability c ≢ panic
unfolding validate_volume_capability
validate_volume_capability-cases none h = cc
validate_volume_capability-cases (some c) h = no_panic c.access_type c.access_mode h
  where
    no_panic : (a : AccessType) (m : Option AccessMode) → check_access a (get_mode m) ≢ panic
    no_panic (mount m) (some single_node_writer) e = cc
    no_panic _ _ e = cc

validate_each-ne-panic : (cs : List (Option VolumeCapability)) → validate_each cs ≢ panic
unfolding validate_each
validate_each-ne-panic [] h = cc
validate_each-ne-panic (c ∷ cs) h =
    ground (arith, validate_each-ne-panic cs, validate_volume_capability-cases c)

-- No error is acceptance.
pub validate_volume_capabilities_of_not_err :
    (cs : List (Option VolumeCapability))
    → is_err (validate_volume_capabilities cs) ≡ false
    → validate_volume_capabilities cs ≡ ok tt
unfolding validate_volume_capabilities
validate_volume_capabilities_of_not_err [] h = cc
validate_volume_capabilities_of_not_err (c ∷ cs) h = ground (arith, validate_each-ne-panic (c ∷ cs))
