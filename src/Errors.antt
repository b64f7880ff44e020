-- ===== src/Errors.antt =====
-- Go errors as the driver tells them apart, after pkg/xenorchestra-csi/clients/errors.go. The words
-- that `fmt.Errorf` puts around an error are left out: `errors.Is` looks only at the chain, and
-- `is_not_found_error` is asked only about what the SDK returned.
use xenorchestra_csi_driver.Base.{String, Bool, true, false, contains_text, char_eq}

-- The errors that the driver's packages declare.
pub data Sentinel : Type 0 where
  err_vbd_not_found err_volume_not_found : Sentinel
  err_volume_id_ambiguous err_volume_name_ambiguous : Sentinel
  err_no_pool_in_topology err_pool_not_viable : Sentinel

-- What the SDK returns is known by its text.
abbrev pub ApiError : Type 0
ApiError = String

pub data Error : Type 0 where
  api : ApiError → Error
  sentinel : Sentinel → Error
  wrap : Error → Error
  message : Error

abbrev pub same_sentinel : Sentinel → Sentinel → Bool
same_sentinel err_vbd_not_found err_vbd_not_found = true
same_sentinel err_volume_not_found err_volume_not_found = true
same_sentinel err_volume_id_ambiguous err_volume_id_ambiguous = true
same_sentinel err_volume_name_ambiguous err_volume_name_ambiguous = true
same_sentinel err_no_pool_in_topology err_no_pool_in_topology = true
same_sentinel err_pool_not_viable err_pool_not_viable = true
same_sentinel _ _ = false

-- `errors.Is`
abbrev pub errors_is : Error → Sentinel → Bool
errors_is (sentinel x) target = same_sentinel x target
errors_is (wrap e) target = errors_is e target
errors_is (api text) target = false
errors_is message target = false

unfoldable pub is_not_found_error : ApiError → Bool
unfolding char_eq
is_not_found_error text = contains_text text "API error: 404 Not Found"

-- The code of a gRPC status; its text, which only people read, is left out.
pub data Code : Type 0 where
  invalid_argument not_found already_exists failed_precondition resource_exhausted : Code
  unimplemented internal unavailable : Code
