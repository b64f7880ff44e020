-- ===== src/Controller/Create/Guards.antt =====
-- Which requests `CreateVolume` accepts.
use xenorchestra_csi_driver.Base.{
  String, true, false, Option, none, some, [], ok, err, check, ◌≡◌, ◌≢◌, ◌⊎◌, inl, inr, string_eq,
  All, arith,
}
use xenorchestra_csi_driver.Payloads.{ℤ, is_nonpositive}
use xenorchestra_csi_driver.Errors.{invalid_argument}
use xenorchestra_csi_driver.Constants.{storage_type_shared, storage_type_local}
use xenorchestra_csi_driver.Csi.{CreateVolumeRequest, Driver}
use xenorchestra_csi_driver.Library.{Library, Vendor}
use xenorchestra_csi_driver.Capabilities.Checks.{
  IsSupported, validate_volume_capabilities_iff, validate_volume_capabilities_of_not_err,
}
use xenorchestra_csi_driver.Controller.Create.{
  create_guards, create_volume, storage_type_of, bad_capacity, valid_storage_type,
}

-- A request for a new volume that the driver can serve.
pub record IsServable (req : CreateVolumeRequest) : Type 0 where
  pub named : req.name ≢ ""
  pub from_nothing : req.has_content_source ≡ false
  pub supported : (req.volume_capabilities ≢ []) × All IsSupported req.volume_capabilities
  pub positive :
      (required : ℤ) → req.capacity_range ≡ some required → is_nonpositive required ≡ false
  pub stored :
      (storage_type_of req.parameters ≡ storage_type_shared)
      ⊎ (storage_type_of req.parameters ≡ storage_type_local)

positive_of :
    (o : Option ℤ) → bad_capacity o ≡ false → (n : ℤ) → o ≡ some n → is_nonpositive n ≡ false
positive_of none h n e = cc
positive_of (some m) h n e = ground arith

stored_of :
    (t : String)
    → valid_storage_type t ≡ true
    → (t ≡ storage_type_shared) ⊎ (t ≡ storage_type_local)
stored_of t h = ground arith

create_guards-IsServable : (req : CreateVolumeRequest) → create_guards req ≡ ok tt → IsServable req
unfolding create_guards
create_guards-IsServable req h = record {
  named = ground arith;
  from_nothing = ground arith;
  supported =
      (validate_volume_capabilities_iff req.volume_capabilities).0
        (validate_volume_capabilities_of_not_err req.volume_capabilities (ground arith));
  positive = positive_of req.capacity_range (ground arith);
  stored = stored_of (storage_type_of req.parameters) (ground arith);
}

create_guards_cases :
    (req : CreateVolumeRequest)
    → (create_guards req ≡ ok tt) ⊎ (create_guards req ≡ err invalid_argument)
unfolding create_guards
create_guards_cases req = ground arith

module _ {S : Type 0} (lib : Library S) (vendor : Vendor) (driver : Driver) where
  -- A request that is not servable is refused as an invalid argument, before any call is made.
  pub create_volume_of_not_IsServable :
      (req : CreateVolumeRequest) (s : S)
      → ¬ IsServable req
      → create_volume lib vendor driver req s ≡ (err invalid_argument, s)
  unfolding create_volume check
  create_volume_of_not_IsServable req s h = elim (create_guards_cases req) [
    | inl e ↦ absurd (h (create_guards-IsServable req e))
    | inr e ↦ rw e
  ]
