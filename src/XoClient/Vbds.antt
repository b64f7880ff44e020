-- ===== src/XoClient/Vbds.antt =====
-- VBDs: finding, connecting, attaching and disconnecting them
-- (pkg/xenorchestra-csi/clients/xoclient.go).
pub mod Waiting
use xenorchestra_csi_driver.Base.{
  ℕ, zero, suc, String, Bool, false, Option, none, some, List, [], ◌∷◌, ◌&&◌, not, Exec, pure, fail,
  check, ◌>>=◌, ◌>>◌, ◌==◌, string_eq, nat_eq, char_eq, if◌then◌else◌, ◌<>◌,
}
use xenorchestra_csi_driver.Payloads.{Uuid, Vdi, Vbd}
use xenorchestra_csi_driver.Errors.{Error, sentinel, wrap, message, err_vbd_not_found}
use xenorchestra_csi_driver.Library.{Library, Vendor}
use xenorchestra_csi_driver.XoClient.Calls.{as_is, wait_task}

-- `vbd.Attached && vbd.Device != nil && *vbd.Device != ""`
abbrev pub has_device : Option String → Bool
has_device none = false
has_device (some device) = not (device == "")

abbrev pub is_fully_attached : Vbd → Bool
is_fully_attached vbd = vbd.attached && has_device vbd.device

module _ {S : Type 0} (lib : Library S) (vendor : Vendor) where
  unfoldable pub get_vbd_from_vdi_and_vm : Vdi → Uuid → Exec S Error Vbd
  get_vbd_from_vdi_and_vm vdi vm_uuid = do
    vbds ← as_is (
        lib.vbd_get_all 0 ("VDI:" <> vendor.to_string vdi.id <> " VM:" <> vendor.to_string vm_uuid))
    elim vbds [ [] ↦ fail (wrap (sentinel err_vbd_not_found)) | vbd ∷ _ ↦ pure vbd ]

  unfoldable pub is_vdi_used_anywhere : Vdi → Exec S Error (List Vbd)
  is_vdi_used_anywhere vdi = as_is (lib.vbd_get_all 0 ("VDI:" <> vendor.to_string vdi.id))

  unfoldable pub disconnect_vbd_from_vm : Vdi → Uuid → Exec S Error (Unit {0})
  unfolding get_vbd_from_vdi_and_vm
  disconnect_vbd_from_vm vdi vm_uuid = do
    vbd ← get_vbd_from_vdi_and_vm vdi vm_uuid
    task_id ← as_is (lib.vbd_disconnect vbd.id)
    wait_task lib task_id
    pure tt

module _ {S : Type 0} (lib : Library S) where
  unfoldable pub connect_vbd_to_vm : Vbd → Exec S Error Vbd
  connect_vbd_to_vm vbd = do
    task_id ← as_is (lib.vbd_connect vbd.id)
    wait_task lib task_id
    as_is (lib.vbd_get vbd.id)

  -- The loop of the wait: one round for each tick that comes before the timeout.
  unfoldable pub wait_for_vdi_to_be_fully_attached : ℕ → Uuid → Exec S Error Vbd
  wait_for_vdi_to_be_fully_attached zero vbd_id = fail message
  wait_for_vdi_to_be_fully_attached (suc ticks) vbd_id =
      let go_on = wait_for_vdi_to_be_fully_attached ticks vbd_id in
      check (lib.vbd_get vbd_id) (λ _. go_on)
        (λ vbd. if is_fully_attached vbd then pure vbd else go_on)

  unfoldable pub attach_vdi_to_vm : ℕ → Vdi → Uuid → Exec S Error Vbd
  unfolding wait_for_vdi_to_be_fully_attached
  attach_vdi_to_vm ticks vdi vm_uuid = do
    vbd_id ← as_is (lib.vbd_create (record { vm = vm_uuid; vdi = vdi.id }))
    wait_for_vdi_to_be_fully_attached ticks vbd_id
