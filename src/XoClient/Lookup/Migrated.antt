-- ===== src/XoClient/Lookup/Migrated.antt =====
-- A volume is found by its ID after its VDI was migrated (pkg/xenorchestra-csi/clients/xoclient.go).
use xenorchestra_csi_driver.Base.{
  String, true, false, List, [], ◌∷◌, keep, ok, ◌≡◌, refl, sym, subst, nat_eq, string_eq,
}
use xenorchestra_csi_driver.Payloads.{Uuid, Vdi}
use xenorchestra_csi_driver.Library.{Library, Vendor}
use xenorchestra_csi_driver.World.{View, IsLawful}
use xenorchestra_csi_driver.World.Tagging.{
  IsTagging, is_vdi, IsReserved, IsReserved-is_vdi, keep-has_tag, first_of_keep,
}
use xenorchestra_csi_driver.World.Relocating.{IsRelocating, IsReserved-move}
use xenorchestra_csi_driver.XoClient.Storage.{migrate_vdi_and_wait}
use xenorchestra_csi_driver.XoClient.Storage.Migration.{
  IsFinished, moved_world, migrate_vdi_and_wait-IsFinished,
}
use xenorchestra_csi_driver.XoClient.Storage.Tagged.{written, Written, write_tags_to_vdi-Written}
use xenorchestra_csi_driver.XoClient.Lookup.{build_tag_filter, get_vdi_by_volume_id}
use xenorchestra_csi_driver.XoClient.Lookup.ByTag.{tagged, get_vdi_by_volume_id-tagged}
use xenorchestra_csi_driver.XoClient.Lookup.Again.{volume_tag, has_prefix-volume_tag, eq_of_is_vdi}
use xenorchestra_csi_driver.Tags.{vdi_tag_key_volume_id}

module _ {S : Type 0} {lib : Library S} {vendor : Vendor} {view : View S}
    (lawful : IsLawful lib vendor view) (tagging : IsTagging lib view) (volume_id : String) where
  found_of_Written :
      (new : Uuid) (t : S) (l : List Vdi)
      → Written (volume_tag volume_id) new true (view.vdis t)
      → (lib.vdi_get_all 2 (build_tag_filter vdi_tag_key_volume_id volume_id) t).0 ≡ ok l
      → (v : Vdi) × (v.id ≡ new) × (get_vdi_by_volume_id lib vendor volume_id t ≡ (ok v, t))
  found_of_Written new t l (v, reserved, has) can_list = (
    v,
    eq_of_is_vdi new v (IsReserved-is_vdi reserved),
    get_vdi_by_volume_id-tagged lawful volume_id t l v [] can_list
        (keep-has_tag reserved (has refl)),
  )

  module _ (relocating : IsRelocating lib view) where
    finished-Written :
        (vdi : Vdi) (sr new : Uuid) (s t : S)
        → tagged lawful volume_id s ≡ vdi ∷ []
        → keep (is_vdi vdi.id) (view.vdis s) ≡ vdi ∷ []
        → IsFinished lib vdi sr new s t
        → Written (volume_tag volume_id) new true (view.vdis t)
    finished-Written vdi sr new s t carries alone f =
        let (free, move, moves, moved) =
          relocating.relocated vdi.id sr s f.task_id f.task f.started f.waited f.succeeded in
        let reserved = IsReserved-move (view.vdis s) carries alone free moves in
        let w = moved_world lib vdi sr new s t f.task_id in
        let its : IsReserved (volume_tag volume_id) new (move vdi) (view.vdis w) =
          subst (λ k. IsReserved (volume_tag volume_id) k (move vdi) (view.vdis w)) f.its_id
            (subst (IsReserved (volume_tag volume_id) f.task.result_id (move vdi)) (sym moved)
              reserved) in
        let all =
          write_tags_to_vdi-Written tagging new (volume_tag volume_id) vdi.tags false w
            (has_prefix-volume_tag volume_id) (move vdi, its, λ no. cc) in
        subst (λ u. Written (volume_tag volume_id) new true (view.vdis u)) (sym f.copied)
          (subst
            (λ b. Written (volume_tag volume_id) new b (view.vdis (written tagging new vdi.tags w)))
            (first_of_keep _ vdi (view.vdis s) [] carries) all)

    -- If adding tags works, a VDI alone carries the tag of a volume, and alone has its ID: where a migration
    -- of it returned the ID of a VDI, and the VDIs can be listed after it, a lookup of the volume finds the
    -- VDI with that ID, and changes nothing.
    pub get_vdi_by_volume_id-migrate_vdi_and_wait :
        (vdi : Vdi) (sr new : Uuid) (s t : S) (l : List Vdi)
        → tagged lawful volume_id s ≡ vdi ∷ []
        → keep (is_vdi vdi.id) (view.vdis s) ≡ vdi ∷ []
        → migrate_vdi_and_wait lib vdi sr s ≡ (ok new, t)
        → (lib.vdi_get_all 2 (build_tag_filter vdi_tag_key_volume_id volume_id) t).0 ≡ ok l
        → (v : Vdi) × (v.id ≡ new) × (get_vdi_by_volume_id lib vendor volume_id t ≡ (ok v, t))
    get_vdi_by_volume_id-migrate_vdi_and_wait vdi sr new s t l carries alone h can_list =
        found_of_Written new t l
          (finished-Written vdi sr new s t carries alone
            (migrate_vdi_and_wait-IsFinished lib vdi sr new s t h))
          can_list
