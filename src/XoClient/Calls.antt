-- ===== src/XoClient/Calls.antt =====
-- The calls of the library with their errors as the client passes them on.
use xenorchestra_csi_driver.Base.{
  String, Option, none, some, Exec, pure, fail, crash, check, map_err, string_eq, nat_eq, char_eq,
}
use xenorchestra_csi_driver.Payloads.{Task}
use xenorchestra_csi_driver.Errors.{ApiError, Error, api, wrap}
use xenorchestra_csi_driver.Library.{Library}

-- An error of the SDK passed on as it is, and one wrapped by `fmt.Errorf("...: %w", err)`.
abbrev pub as_is : {S A : Type 0} → Exec S ApiError A → Exec S Error A
as_is m = map_err api m

abbrev pub wrapped : {S A : Type 0} → Exec S ApiError A → Exec S Error A
wrapped m = map_err (λ e. wrap (api e)) m

-- `task, err := Task().Wait(...)` where the error branch reads `task.Result`: a nil pointer panics.
abbrev wait_failed : {S : Type 0} → ApiError → Option Task → Exec S Error Task
wait_failed text none = crash
wait_failed text (some task) = fail (api text)

abbrev pub wait_task : {S : Type 0} → Library S → String → Exec S Error Task
wait_task lib task_id = check (lib.task_wait task_id) (λ e. wait_failed e.text e.task) pure
