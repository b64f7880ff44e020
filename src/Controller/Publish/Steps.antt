-- ===== src/Controller/Publish/Steps.antt =====
-- What the steps of `ControllerPublishVolume` keep of the VBDs: all but the connecting and the
-- creation of a VBD keep everything.
use xenorchestra_csi_driver.Base.{
  ℕ, zero, suc, String, Bool, true, false, not, ◌&&◌, Option, none, some, List, contains, ◌≡◌, ◌==◌,
  nat_eq, string_eq, ok, err, panic, sym, subst, StringMap, value_at, Result, of_result, arith,
  refuse_if, ap, ok-injective,
}
use xenorchestra_csi_driver.Payloads.{Uuid, uuid_nil, Vdi, Vbd, Vm}
use xenorchestra_csi_driver.Library.{Library, Vendor}
use xenorchestra_csi_driver.Csi.{Driver}
use xenorchestra_csi_driver.Constants.{volume_context_key_storage_type, storage_type_local}
use xenorchestra_csi_driver.World.{View, IsLawful}
use xenorchestra_csi_driver.World.Keeps.{
  Keeps, Keeps-pure, Keeps-fail, Keeps-of_read, Keeps-if, Keeps-check, Keeps-map_err,
}
use xenorchestra_csi_driver.XoClient.{
  get_vdi_by_volume_id, is_vdi_used_anywhere, is_sr_attached_to_host,
  wait_for_vdi_to_be_fully_attached,
}
use xenorchestra_csi_driver.XoClient.Vbds.{is_fully_attached}
use xenorchestra_csi_driver.XoClient.Calls.{wait_task}
use xenorchestra_csi_driver.XoClient.Storage.Reads.{is_sr_attached_to_host-Keeps}
use xenorchestra_csi_driver.XoClient.Lookup.Invariants.{get_vdi_by_volume_id-Keeps}
use xenorchestra_csi_driver.Controller.Publish.{
  publish_context_from_vbd, node_uuid, adopt, move_to_host,
}

module _ {S : Type 0} {lib : Library S} {vendor : Vendor} {view : View S}
    (lawful : IsLawful lib vendor view) (P : List Vbd → Type 0) where
  -- A property of the VBDs.
  abbrev pub Of : S → Type 0
  Of s = P (view.vbds s)

  pub context-Keeps : (vbd : Vbd) → Keeps Of (publish_context_from_vbd vendor vbd)
  context-Keeps vbd = Keeps-of_read _ (λ s. ground arith)

  pub vbd_get-Keeps : (id : Uuid) → Keeps Of (lib.vbd_get id)
  vbd_get-Keeps id = record { at = λ s h. subst P (sym (lawful.vbds-vbd_get id s)) h }

  pub wait-Keeps :
      (ticks : ℕ) (id : Uuid) → Keeps Of (wait_for_vdi_to_be_fully_attached lib ticks id)
  unfolding wait_for_vdi_to_be_fully_attached
  wait-Keeps zero id = Keeps-fail _
  wait-Keeps (suc ticks) id =
      Keeps-check _ _ _ (vbd_get-Keeps id) (λ _. wait-Keeps ticks id)
        (λ vbd.
          Keeps-if (is_fully_attached vbd) _ _ (λ _. Keeps-pure vbd) (λ _. wait-Keeps ticks id))

  pub wait_task-Keeps : (task_id : String) → Keeps Of (wait_task lib task_id)
  wait_task-Keeps task_id =
      Keeps-check _ _ _ (record { at = λ s h. subst P (sym (lawful.vbds-wait task_id s)) h })
        (λ e. Keeps-of_read _ (λ s. ground arith)) Keeps-pure

  pub add_tag-Keeps : (id : Uuid) (tag : String) → Keeps Of (lib.vdi_add_tag id tag)
  add_tag-Keeps id tag = record { at = λ s h. subst P (sym (lawful.vbds-add_tag id tag s)) h }

  pub adopt-Keeps : (driver : Driver) (vdi : Vdi) → Keeps Of (adopt lib vendor driver vdi)
  unfolding adopt
  adopt-Keeps driver vdi =
      Keeps-if (not (driver.cluster_tag == "") && not (contains vdi.tags driver.cluster_tag)) _ _
        (λ _. Keeps-map_err _ _ (add_tag-Keeps vdi.id driver.cluster_tag)) (λ _. Keeps-pure tt)

  pub sr-Keeps : (sr host : Uuid) → Keeps Of (is_sr_attached_to_host lib vendor sr host)
  sr-Keeps sr host = is_sr_attached_to_host-Keeps lawful.reads vendor sr host

  pub used-Keeps : (vdi : Vdi) → Keeps Of (is_vdi_used_anywhere lib vendor vdi)
  unfolding is_vdi_used_anywhere
  used-Keeps vdi =
      Keeps-map_err _ _ (Keeps-of_read (lib.vbd_get_all 0 _) (lawful.reads.vbd_get_all 0 _))

  pub lookup-Keeps : (volume_id : String) → Keeps Of (get_vdi_by_volume_id lib vendor volume_id)
  lookup-Keeps volume_id =
      get_vdi_by_volume_id-Keeps lib vendor lawful.reads add_tag-Keeps volume_id

  pub of_result-Keeps :
      {E F A : Type 0} (f : E → F) (r : Result E A) → Keeps Of (of_result {S = S} f r)
  of_result-Keeps f (ok a) = Keeps-pure a
  of_result-Keeps f (err e) = Keeps-fail _
  of_result-Keeps f panic = record { at = λ s h. h }

  pub refuse_if-Keeps : {E : Type 0} (refused : Bool) (e : E) → Keeps Of (refuse_if refused e)
  refuse_if-Keeps true e = Keeps-fail e
  refuse_if-Keeps false e = Keeps-pure tt

  pub node_uuid-Keeps : (o : Option Uuid) → Keeps Of (node_uuid o)
  node_uuid-Keeps none = Keeps-fail _
  node_uuid-Keeps (some id) = Keeps-if (id == uuid_nil) _ _ (λ _. Keeps-fail _) (λ _. Keeps-pure id)

  -- Without local storage the VDI stays where it is.
  pub move_to_host-Keeps :
      (driver : Driver) (context : StringMap) (vm : Vm) (vdi : Vdi)
      → (value_at volume_context_key_storage_type context == storage_type_local) ≡ false
      → Keeps Of (move_to_host lib vendor driver context vm vdi)
  unfolding move_to_host
  move_to_host-Keeps driver context vm vdi shared =
      Keeps-if (value_at volume_context_key_storage_type context == storage_type_local) _ _
        (λ local. cc) (λ _. Keeps-pure vdi)

pub of_result-eq_ok :
    {S E F A : Type 0} (f : E → F) (r : Result E A) (s : S) {a : A}
    → (of_result f r s).0 ≡ ok a
    → r ≡ ok a
of_result-eq_ok f (ok b) s h = ap ok (ok-injective h)
of_result-eq_ok f (err e) s h = cc
of_result-eq_ok f panic s h = cc
