-- ===== src/Payloads.antt =====
-- The values that the driver and the Xen Orchestra SDK exchange: the fields that the driver reads or
-- writes of the SDK's structs, under their names. A `uuid.UUID` is an array of 16 bytes, read here as
-- the number that they spell; `uuid.Nil` is 0. An `int64` is an integer.
use xenorchestra_csi_driver.Base.{
  ℕ, zero, suc, String, Bool, true, false, Option, List, ◌==◌, nat_eq,
}

abbrev pub Uuid : Type 0
Uuid = ℕ

abbrev pub uuid_nil : Uuid
uuid_nil = 0

-- `negsuc n` is -(n + 1).
pub data ℤ : Type 0 where
  pos : ℕ → ℤ
  negsuc : ℕ → ℤ

-- `n <= 0`
abbrev pub is_nonpositive : ℤ → Bool
is_nonpositive (pos zero) = true
is_nonpositive (pos (suc n)) = false
is_nonpositive (negsuc n) = true

abbrev pub eq_ℤ : ℤ → ℤ → Bool
eq_ℤ (pos m) (pos n) = m == n
eq_ℤ (negsuc m) (negsuc n) = m == n
eq_ℤ _ _ = false

pub record Vdi : Type 0 where
  pub id : Uuid
  pub pool_id : Uuid
  pub sr : Uuid
  pub size : ℤ
  pub name_label : String
  pub name_description : String
  pub tags : List String

pub record Vbd : Type 0 where
  pub id : Uuid
  pub vm : Uuid
  pub vdi : Option Uuid
  pub attached : Bool
  pub device : Option String

pub record Vm : Type 0 where
  pub id : Uuid
  pub pool_id : Uuid
  pub container : Uuid

pub record Pool : Type 0 where
  pub id : Uuid
  pub name_label : String
  pub default_sr : Uuid

pub record StorageRepository : Type 0 where
  pub id : Uuid
  pub name_label : String
  pub in_maintenance_mode : Bool

pub record Pbd : Type 0 where
  pub id : Uuid

pub data TaskStatus : Type 0 where
  success : TaskStatus
  unfinished_or_failed : TaskStatus

-- `result_id` is `task.Result.ID`.
pub record Task : Type 0 where
  pub status : TaskStatus
  pub result_id : Uuid

pub record VdiCreateParams : Type 0 where
  pub sr_id : Uuid
  pub name_label : String
  pub virtual_size : ℤ
  pub name_description : String
  pub tags : List String

-- The driver creates each VBD in the mode "RW".
pub record CreateVbdParams : Type 0 where
  pub vm : Uuid
  pub vdi : Uuid
