-- ===== src/Examples/Scenarios.antt =====
-- Runs of the driver, and of the theorems, on a small Xen Orchestra.
use xenorchestra_csi_driver.Base.{
  ap, ok-injective, true, false, none, some, [], ◌∷◌, ok, err, ◌≡◌, ◌≢◌, refl, nat_eq, option_eq,
  string_eq, char_eq, ◌↔◌, All, any, if◌then◌else◌, contains, check, arith, ℕ, zero, suc, ◌<◌, ◌==◌,
  panic,
}
use xenorchestra_csi_driver.Payloads.{Uuid, Vbd}
use xenorchestra_csi_driver.XoClient.Lookup.ByTag.{unless_ambiguous, get_vdi_by_volume_id-tagged}
use xenorchestra_csi_driver.Errors.{failed_precondition, invalid_argument}
use xenorchestra_csi_driver.Names.{
  parse_volume_name_from_vdi_name_description, parse_volume_name_from_vdi_name_label,
}
use xenorchestra_csi_driver.Controller.Volumes.{delete_volume}
use xenorchestra_csi_driver.Controller.Volumes.Deletion.{InUse, delete_volume-InUse}
use xenorchestra_csi_driver.Capabilities.{validate_volume_capability, validate_volume_capabilities}
use xenorchestra_csi_driver.Capabilities.Checks.{IsSupported, validate_volume_capabilities_iff}
use xenorchestra_csi_driver.XoClient.Storage.{new_volume_tags}
use xenorchestra_csi_driver.XoClient.Vbds.{wait_for_vdi_to_be_fully_attached}
use xenorchestra_csi_driver.XoClient.Vbds.Waiting.{
  IsUsable, before_poll, wait_for_vdi_to_be_fully_attached_of_ready,
}
use xenorchestra_csi_driver.Controller.Publish.Release.{holds, controller_unpublish_volume-holds}
use xenorchestra_csi_driver.Controller.Create.Adds.{AddsOne, create_volume-AddsOne}
use xenorchestra_csi_driver.Controller.Create.Found.{IsFound, new_volume-IsFound}
use xenorchestra_csi_driver.Controller.Publish.{
  vbd_to_attach, controller_publish_volume, controller_unpublish_volume,
}
use xenorchestra_csi_driver.Controller.Publish.Scan.{vbd_to_attach_lem, is_elsewhere, last_of}
use xenorchestra_csi_driver.Controller.Create.{new_volume, create_volume}
use xenorchestra_csi_driver.XoClient.{
  get_vdi_by_volume_id, is_sr_attached_to_host, is_vdi_used_anywhere, attach_vdi_to_vm,
  find_vdi_by_volume_name, create_new_volume, build_tag_filter,
}
use xenorchestra_csi_driver.Regex.{is_meta}
use xenorchestra_csi_driver.Controller.Create.Guards.{create_volume_of_not_IsServable}
use xenorchestra_csi_driver.Topology.{
  ordered_pool_ids, tagged_pool_ids, pool_uuid_from_topology, try_pool, select_pool_and_storage,
}
use xenorchestra_csi_driver.Topology.Ordering.{IsOrdered, ordered_pool_ids-IsOrdered}
use xenorchestra_csi_driver.Topology.Selection.{IsViable, select_pool_and_storage_sound}
use xenorchestra_csi_driver.Examples.Memory.{
  view, memory, vendor, memory-IsLawful, vendor-IsDocumented,
}
use xenorchestra_csi_driver.Examples.Data.{
  disk, twins, plug, home, shelf, busy, driver, one_writer, many_writers, request, two_pools, slow,
  fresh, new_disk, after_creation, new_volume_of_pv, publish_request, released, taken_over,
  unpublish_request, shared_disk,
}

name_of_description :
    parse_volume_name_from_vdi_name_description
      "VDI managed by the Kubernetes CSI; pv-name=pvc-12.a"
    ≡ "pvc-12.a"
unfolding parse_volume_name_from_vdi_name_description
name_of_description = refl

name_of_label : parse_volume_name_from_vdi_name_label "csi-12ab-pvc-12.a" "12ab" ≡ "pvc-12.a"
unfolding parse_volume_name_from_vdi_name_label
name_of_label = refl

name_after_bad_name :
    parse_volume_name_from_vdi_name_description "pv-name=ab- pv-name=x; pv-name=cd" ≡ "cd"
unfolding parse_volume_name_from_vdi_name_description
name_after_bad_name = refl

delete_volume-InUse_example : InUse memory-IsLawful 5 (delete_volume memory vendor "vol" busy).1
unfolding nat_eq option_eq
delete_volume-InUse_example = delete_volume-InUse memory-IsLawful 5 "vol" busy (refl, refl)

create_volume_of_not_IsServable_example :
    create_volume memory vendor driver (request "") busy ≡ (err invalid_argument, busy)
create_volume_of_not_IsServable_example =
    create_volume_of_not_IsServable memory vendor driver (request "") busy (λ h. h.named refl)

ordered_pool_ids-IsOrdered_example : IsOrdered vendor-IsDocumented two_pools (2 ∷ 1 ∷ [])
unfolding ordered_pool_ids pool_uuid_from_topology string_eq char_eq nat_eq
ordered_pool_ids-IsOrdered_example =
    ordered_pool_ids-IsOrdered vendor-IsDocumented two_pools (2 ∷ 1 ∷ []) refl

select_pool_and_storage_sound_example :
    (id : Uuid) × (contains (3 ∷ 1 ∷ []) id ≡ true) × IsViable memory id home shelf
unfolding select_pool_and_storage try_pool nat_eq check
select_pool_and_storage_sound_example =
    select_pool_and_storage_sound memory (3 ∷ 1 ∷ []) busy home shelf refl

vbd_to_attach_lem_example : vbd_to_attach 8 none (plug ∷ []) ≡ (
    if any (is_elsewhere 8) (plug ∷ [])
    then err failed_precondition
    else ok (last_of 8 none (plug ∷ [])))
vbd_to_attach_lem_example = vbd_to_attach_lem 8 none (plug ∷ [])

validate_volume_capabilities_iff_example :
    (validate_volume_capabilities (one_writer ∷ many_writers ∷ []) ≡ ok tt)
    ↔ ((one_writer ∷ many_writers ∷ [] ≢ []) × All IsSupported (one_writer ∷ many_writers ∷ []))
validate_volume_capabilities_iff_example =
    validate_volume_capabilities_iff (one_writer ∷ many_writers ∷ [])

first_waits :
    (k : ℕ) (v : Vbd) → k < 1 → (slow.vbd_get 6 (before_poll slow 6 k busy)).0 ≡ ok v → ¬ IsUsable v
unfolding nat_eq
first_waits zero v lt h usable =
    let e : false ≡ v.attached = ap (λ (x : Vbd). x.attached) (ok-injective h) in
    let on = usable.attached in cc
first_waits (suc k) v lt h usable = absurd (omega arith)

first_calm : (k : ℕ) → k < 1 → (slow.vbd_get 6 (before_poll slow 6 k busy)).0 ≢ panic
first_calm k lt h = cc

wait_for_vdi_to_be_fully_attached_of_ready_example :
    wait_for_vdi_to_be_fully_attached slow 120 6 busy ≡ (ok plug, record busy { next = 11 })
unfolding nat_eq string_eq char_eq
wait_for_vdi_to_be_fully_attached_of_ready_example =
    wait_for_vdi_to_be_fully_attached_of_ready slow 6 1 120 busy plug (omega arith) first_waits
      first_calm refl
      (record { attached = refl; device = "xvdb"; known = refl; nonempty = λ e. cc })

publish_takes_over :
    controller_publish_volume memory vendor driver 120 publish_request released
    ≡ (ok (("device", "xvdb") ∷ ("vbd", "iiiiiiiiiu") ∷ []), taken_over)
unfolding controller_publish_volume check char_eq string_eq nat_eq option_eq
    validate_volume_capability get_vdi_by_volume_id build_tag_filter is_meta is_sr_attached_to_host
    is_vdi_used_anywhere attach_vdi_to_vm
publish_takes_over = refl

other_node :
    (vm : Uuid) → vendor.from_string unpublish_request.node_id ≡ some vm → (7 == vm) ≡ false
unfolding char_eq string_eq nat_eq
other_node vm h = ground arith

controller_unpublish_volume-holds_example :
    any
      (holds 5 7)
      (view.vbds (controller_unpublish_volume memory vendor driver unpublish_request shared_disk).1)
    ≡ any (holds 5 7) (view.vbds shared_disk)
unfolding nat_eq
controller_unpublish_volume-holds_example =
    controller_unpublish_volume-holds memory-IsLawful driver unpublish_request 5 7 shared_disk
      (
        ((λ e. (refl, refl)), ((λ e. absurd (omega arith)), tt)),
        (((λ e. absurd (omega arith)), ((λ e. (refl, refl)), tt)), tt),
      )
      other_node

new_volume-IsFound_example :
    IsFound memory-IsLawful driver (request "pv") home shelf new_volume_of_pv after_creation
unfolding new_volume create_new_volume new_volume_tags check build_tag_filter is_meta nat_eq
    string_eq char_eq
new_volume-IsFound_example =
    new_volume-IsFound memory-IsLawful driver (request "pv") home shelf fresh after_creation
      new_volume_of_pv (new_disk ∷ []) refl refl refl

create_volume-AddsOne_example :
    AddsOne memory-IsLawful driver
      (request "pv")
      (view.vdis fresh)
      (view.vdis (create_volume memory vendor driver (request "pv") fresh).1)
create_volume-AddsOne_example = create_volume-AddsOne memory-IsLawful driver (request "pv") fresh

creates_a_disk :
    create_volume memory vendor driver (request "pv") fresh ≡ (ok new_volume_of_pv, after_creation)
unfolding create_volume check string_eq nat_eq validate_volume_capabilities ordered_pool_ids
    tagged_pool_ids select_pool_and_storage try_pool find_vdi_by_volume_name create_new_volume
    new_volume_tags
creates_a_disk = refl

get_vdi_by_volume_id-tagged_example :
    get_vdi_by_volume_id memory vendor "vol" twins ≡ (unless_ambiguous disk (disk ∷ []), twins)
unfolding build_tag_filter is_meta nat_eq string_eq char_eq
get_vdi_by_volume_id-tagged_example =
    get_vdi_by_volume_id-tagged memory-IsLawful "vol" twins (disk ∷ disk ∷ []) disk (disk ∷ []) refl
      refl
