-- ===== src/Examples/Ownership.antt =====
-- Runs of the controller service one after another, and what is relied on of the VBDs, in memory.
use xenorchestra_csi_driver.Base.{
  keep, ◌<>◌, ℕ, ◌≤◌, true, false, none, some, List, [], ◌∷◌, All, any, ok, ok-injective, ◌≡◌, ◌≢◌,
  refl, sym, ap, Result, StringMap, err, ◌==◌, nat_eq, option_eq, string_eq, char_eq, arith, inl,
  inr, check, Option, if◌then◌else◌,
}
use xenorchestra_csi_driver.Payloads.{Uuid, Vbd, Vdi, success}
use xenorchestra_csi_driver.Errors.{Code, failed_precondition}
use xenorchestra_csi_driver.World.{is_of_vdi, is_between}
use xenorchestra_csi_driver.World.Orderly.{IsOrderly, IsMoved}
use xenorchestra_csi_driver.Capabilities.{validate_volume_capability}
use xenorchestra_csi_driver.XoClient.{
  get_vdi_by_volume_id, is_sr_attached_to_host, is_vdi_used_anywhere, attach_vdi_to_vm,
  build_tag_filter, find_local_sr_for_host, migrate_vdi_and_wait,
}
use xenorchestra_csi_driver.Regex.{is_meta}
use xenorchestra_csi_driver.Csi.{ControllerUnpublishVolumeRequest}
use xenorchestra_csi_driver.Controller.Publish.{
  controller_publish_volume, controller_unpublish_volume,
}
use xenorchestra_csi_driver.Controller.Publish.Release.{holds}
use xenorchestra_csi_driver.Controller.Publish.Released.{
  CanDisconnect, held_besides_first, controller_unpublish_volume-released,
}
use xenorchestra_csi_driver.Controller.Volumes.{delete_volume}
use xenorchestra_csi_driver.Controller.Ownership.{IsOwned, publish, delete, here, next}
use xenorchestra_csi_driver.Controller.Ownership.Vbds.{IdsAgree-map}
use xenorchestra_csi_driver.Controller.Ownership.Traces.{Reach-IsOwned}
use xenorchestra_csi_driver.Examples.Memory.{
  print, of_filter, result_of, scan, Store, memory, vendor, view, above, beyond, past, follow,
  made_vbd, memory-IsLawful,
}
use xenorchestra_csi_driver.Examples.Data.{busy, disk, plug, driver, local_request, before_move}

unnamed : (n k : ℕ) (l : List Vbd) → beyond n l ≤ k → any (is_of_vdi k) l ≡ false
unnamed n k [] h = refl
unnamed n k (b ∷ l) h = go (unnamed n k l) b.vdi refl
  where
    go :
        (beyond n l ≤ k → any (is_of_vdi k) l ≡ false)
        → (o : Option Uuid) → b.vdi ≡ o
        → any (is_of_vdi k) (b ∷ l) ≡ false
    go rest none e = ground (arith, e, h, rest)
    go rest (some id) e = ground (arith, e, h, rest)

apart : (n k : ℕ) (l : List Vbd) → above n l ≤ k → All (λ b. b.id ≢ k) l
apart n k [] h = tt
apart n k (b ∷ l) h = (λ e. absurd (ground (arith, e, h)), apart n k l (ground (arith, h)))

pub at_least : (n : ℕ) (l : List Vbd) → n ≤ beyond n l
at_least n [] = omega arith
at_least n (b ∷ l) = go b.vdi refl (at_least n l)
  where
    go : (o : Option Uuid) → b.vdi ≡ o → n ≤ beyond n l → n ≤ beyond n (b ∷ l)
    go none e h = ground (arith, e, h)
    go (some id) e h = ground (arith, e, h)

pub unused : (n k : ℕ) (l : List Vdi) → past n l ≤ k → any (λ v. v.id == k) l ≡ false
unused n k [] h = refl
unused n k (v ∷ l) h = ground (arith, h, unused n k l)

follow-IsMoved : (id new : Uuid) → IsMoved id new (follow id new)
follow-IsMoved id new = record {
  others = λ b h. ground arith;
  of_new = λ b h. ground arith;
  same_vm = λ b h. ground arith;
  was_attached = λ b h k. ground arith;
}

pub memory-IsOrderly : IsOrderly memory view
memory-IsOrderly = record {
  vdi_create_fresh = λ params s new h.
      let e : beyond (past s.next s.vdis) s.vbds ≡ new = ok-injective h in
      let below = at_least (past s.next s.vdis) s.vbds in
      (
        unused s.next new s.vdis (omega (arith, e, below)),
        unnamed (past s.next s.vdis) new s.vbds (omega (arith, e)),
      );
  vdis-vdi_deleted = λ id s h. refl;
  vbds-vdi_create = λ params s. refl;
  vbds-vdi_delete = λ id s. inr refl;
  vbds-vbd_create = λ params s. inl (
    made_vbd params (above s.next s.vbds),
    apart s.next (above s.next s.vbds) s.vbds (omega arith),
    refl,
  );
  vbds-vdi_migrate = λ id sr s.
      let new = beyond (past s.next s.vdis) s.vbds in
      inl (
        new,
        follow id new,
        follow-IsMoved id new,
        unnamed (past s.next s.vdis) new s.vbds (omega arith),
        refl,
        IdsAgree-map (follow id new) (λ o. if o == some id then some new else o) s.vbds
            (λ b. ground arith),
      );
}

abbrev pub after_move : Store
after_move = record before_move {
  vdis = record disk { id = 9; sr = 4 } ∷ [];
  vbds =
      record plug { vdi = some 9; attached = false }
      ∷ record { id = 10; vm = 8; vdi = some 9; attached = true; device = some "xvdb" }
      ∷ [];
  next = 11;
}

-- The volume moved to the local SR, and its VBD followed it.
pub moves :
    controller_publish_volume memory vendor driver 120 local_request before_move
    ≡ (ok (("device", "xvdb") ∷ ("vbd", "iiiiiiiiiiu") ∷ []), after_move)
unfolding controller_publish_volume check char_eq string_eq nat_eq option_eq
    validate_volume_capability get_vdi_by_volume_id build_tag_filter is_meta is_sr_attached_to_host
    is_vdi_used_anywhere attach_vdi_to_vm find_local_sr_for_host migrate_vdi_and_wait
moves = refl

-- Then a deletion, which is refused.
keeps_it : delete_volume memory vendor "vol" after_move ≡ (err failed_precondition, after_move)
unfolding delete_volume check char_eq string_eq nat_eq option_eq get_vdi_by_volume_id
    build_tag_filter is_meta is_vdi_used_anywhere
keeps_it = refl

Reach-IsOwned_example : IsOwned (view.vbds after_move)
Reach-IsOwned_example =
    Reach-IsOwned memory-IsLawful memory-IsOrderly driver 120
      (next
        (next here
          (publish local_request (ap (λ (r : Result Code StringMap × Store). r.1) (sym moves))))
        (delete "vol" (ap (λ (r : Result Code (Unit {0}) × Store). r.1) (sym keeps_it))))
      ((((λ e. (refl, refl)), tt), tt), λ v. (7, ground arith))

memory-CanDisconnect : (d vm : Uuid) (s : Store) → CanDisconnect memory vendor view d vm s
memory-CanDisconnect d vm s = record {
  vbds = of_filter ("VDI:" <> print d <> " VM:" <> print vm) s.vbds;
  listed = refl;
  started =
      λ id. ("task", refl, record { status = success; result_id = result_of (scan "task") }, refl);
  unplugged = λ id. refl;
}

abbrev detach_request : ControllerUnpublishVolumeRequest
detach_request = record { node_id = "iiiiiiiu"; volume_id = "vol" }

controller_unpublish_volume-released_example :
    ((controller_unpublish_volume memory vendor driver detach_request busy).0 ≡ ok tt)
    × (any
          (holds 5 7)
          (view.vbds (controller_unpublish_volume memory vendor driver detach_request busy).1)
        ≡ held_besides_first (keep (is_between 5 7) (view.vbds busy)))
unfolding nat_eq option_eq string_eq char_eq get_vdi_by_volume_id check build_tag_filter is_meta
controller_unpublish_volume-released_example =
    controller_unpublish_volume-released memory-IsLawful driver detach_request 7 disk busy refl
      (λ e. cc) (λ e. cc) refl
      (memory-CanDisconnect 5 7 (get_vdi_by_volume_id memory vendor "vol" busy).1)
