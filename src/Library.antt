-- ===== src/Library.antt =====
-- What the driver calls and does not implement. `Library` is the `library.Library` of the Xen
-- Orchestra SDK over a state `S`, the world: a call may change it, fails with a text or returns.
-- `Vendor` has the pure functions of gofrs/uuid, samber/lo and xenorchestra-k8s-common.
pub mod Documented
use xenorchestra_csi_driver.Base.{ℕ, String, Option, List, Exec, Result, StringMap}
use xenorchestra_csi_driver.Payloads.{
  Uuid, Vdi, Vbd, Vm, Pool, StorageRepository, Pbd, Task, VdiCreateParams, CreateVbdParams,
}
use xenorchestra_csi_driver.Errors.{ApiError, Error}

-- The task pointer that `Wait` returns beside its error may be nil.
pub record WaitError : Type 0 where
  pub text : ApiError
  pub task : Option Task

pub record Library (S : Type 0) : Type 0 where
  -- `uuid.NewV4()`
  pub new_v4 : Exec S ApiError Uuid
  pub vdi_get : Uuid → Exec S ApiError Vdi
  -- `GetAll(ctx, limit, filter)`, where the limit 0 is none
  pub vdi_get_all : ℕ → String → Exec S ApiError (List Vdi)
  pub vdi_create : VdiCreateParams → Exec S ApiError Uuid
  pub vdi_delete : Uuid → Exec S ApiError (Unit {0})
  pub vdi_add_tag : Uuid → String → Exec S ApiError (Unit {0})
  -- The names of tasks are texts.
  pub vdi_migrate : Uuid → Uuid → Exec S ApiError String
  pub vbd_get : Uuid → Exec S ApiError Vbd
  pub vbd_get_all : ℕ → String → Exec S ApiError (List Vbd)
  pub vbd_create : CreateVbdParams → Exec S ApiError Uuid
  pub vbd_connect : Uuid → Exec S ApiError String
  pub vbd_disconnect : Uuid → Exec S ApiError String
  pub task_wait : String → Exec S WaitError Task
  pub vm_get_by_id : Uuid → Exec S ApiError Vm
  pub pool_get : Uuid → Exec S ApiError Pool
  pub pool_get_all : ℕ → String → Exec S ApiError (List Pool)
  pub sr_get : Uuid → Exec S ApiError StorageRepository
  pub sr_get_all : ℕ → String → Exec S ApiError (List StorageRepository)
  pub pbd_get_all : ℕ → String → Exec S ApiError (List Pbd)

pub record Vendor : Type 0 where
  -- `uuid.FromString`
  pub from_string : String → Option Uuid
  -- `id.String()`
  pub to_string : Uuid → String
  -- `lo.Uniq`
  pub uniq : List Uuid → List Uuid
  -- `lo.FlatMapErr` over topologies
  pub flat_map_err :
      List StringMap → (StringMap → Result Error (List Uuid)) → Result Error (List Uuid)
  -- `xok8s.XOLabelTopologyPoolID`
  pub pool_label : String
