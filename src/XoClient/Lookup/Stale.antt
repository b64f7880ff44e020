-- ===== src/XoClient/Lookup/Stale.antt =====
-- A VDI that was found by a fallback and is then migrated (pkg/xenorchestra-csi/clients/xoclient.go): the
-- object in hand has not the tags that the fallback wrote.
use xenorchestra_csi_driver.Base.{
  String, false, List, [], contains, ok, check, pure, ◌≡◌, refl, sym, subst, ap, ◌∙◌, nat_eq,
  string_eq,
}
use xenorchestra_csi_driver.Payloads.{Uuid, Vdi}
use xenorchestra_csi_driver.Library.{Library, Vendor}
use xenorchestra_csi_driver.Tags.{vdi_tag_key_volume_id}
use xenorchestra_csi_driver.World.{View, IsLawful, at_most_two}
use xenorchestra_csi_driver.World.Keeps.{map_err-eq_ok, map_err-world, >>=-eq_ok_of_read}
use xenorchestra_csi_driver.World.Tagging.{IsTagging, IsPresent, UniqueIds, Only}
use xenorchestra_csi_driver.World.Relocating.{
  IsRelocating, IsForgetting, Only-one, Only-move, nowhere_of_Only, has_tag_of_Memᴰ,
}
use xenorchestra_csi_driver.XoClient.Storage.{migrate_vdi_and_wait}
use xenorchestra_csi_driver.XoClient.Storage.Migration.{
  IsFinished, moved_world, migrate_vdi_and_wait-IsFinished,
}
use xenorchestra_csi_driver.XoClient.Storage.Tagged.{write_tags_to_vdi-nowhere}
use xenorchestra_csi_driver.XoClient.Lookup.{
  build_tag_filter, only_one, get_vdi_by_name_label, get_vdi_by_volume_id,
}
use xenorchestra_csi_driver.XoClient.Lookup.ByTag.{tagged}
use xenorchestra_csi_driver.XoClient.Lookup.Again.{
  volume_tag, Recovered, get_vdi_by_name_label-Marked,
}

module _ {S : Type 0} {lib : Library S} {vendor : Vendor} {view : View S}
    (lawful : IsLawful lib vendor view) (tagging : IsTagging lib view)
    (present : IsPresent lib view) (relocating : IsRelocating lib view)
    (forgetting : IsForgetting lib view) (volume_id : String) where
  -- A lookup where no VDI carries the tag.
  fallback-Recovered :
      (vdi : Vdi) (s u : S)
      → UniqueIds (view.vdis s)
      → tagged lawful volume_id s ≡ []
      → get_vdi_by_volume_id lib vendor volume_id s ≡ (ok vdi, u)
      → Recovered lawful tagging present volume_id vdi s u
  unfolding get_vdi_by_volume_id
  fallback-Recovered vdi s u unique none_has h =
      let (first, e, rest) =
        >>=-eq_ok_of_read _ _ s (map_err-world _ _ s ∙ lawful.reads.vdi_get_all 2 _ s) h in
      let listed =
        lawful.vdis_by_tag vdi_tag_key_volume_id volume_id s first (map_err-eq_ok _ _ s first e) in
      let none_listed : first ≡ [] = listed ∙ ap at_most_two none_has in
      get_vdi_by_name_label-Marked lawful tagging present volume_id vdi s u unique none_has (
        subst (λ l. only_one (get_vdi_by_name_label lib vendor volume_id) pure l s ≡ (ok vdi, u))
          none_listed rest)

  migrated-nowhere :
      (vdi : Vdi) (sr new : Uuid) (u t : S)
      → Only (volume_tag volume_id) vdi.id (view.vdis u)
      → contains vdi.tags (volume_tag volume_id) ≡ false
      → IsFinished lib vdi sr new u t
      → tagged lawful volume_id t ≡ []
  migrated-nowhere vdi sr new u t only stale f =
      let (_, move, moves, moved) =
        relocating.relocated vdi.id sr u f.task_id f.task f.started f.waited f.succeeded in
      let w = moved_world lib vdi sr new u t f.task_id in
      let bare = forgetting.forgotten vdi.id sr u f.task_id f.task f.started f.waited f.succeeded in
      let its =
        subst (Only (volume_tag volume_id) f.task.result_id) (sym moved) (
          Only-move vdi.id f.task.result_id move moves (volume_tag volume_id) (view.vdis u) only) in
      let none_has =
        nowhere_of_Only (volume_tag volume_id) f.task.result_id (view.vdis w) its bare in
      subst (λ x. tagged lawful volume_id x ≡ []) (sym f.copied)
        (write_tags_to_vdi-nowhere tagging new (volume_tag volume_id) vdi.tags w stale none_has)

  fallback_where_none :
      (t : S) (l : List Vdi)
      → tagged lawful volume_id t ≡ []
      → (lib.vdi_get_all 2 (build_tag_filter vdi_tag_key_volume_id volume_id) t).0 ≡ ok l
      → get_vdi_by_volume_id lib vendor volume_id t ≡ get_vdi_by_name_label lib vendor volume_id t
  unfolding get_vdi_by_volume_id check
  fallback_where_none t l none_has e =
      let none_listed : l ≡ [] =
        lawful.vdis_by_tag vdi_tag_key_volume_id volume_id t l e ∙ ap at_most_two none_has in
      let answer = e ∙ ap ok none_listed in
      let same = lawful.reads.vdi_get_all 2 (build_tag_filter vdi_tag_key_volume_id volume_id) t in
      rw (answer, same) refl

  -- If adding tags works, an ID names one VDI, a migration loses the tags of the VDI, and no VDI carried the
  -- tag of the volume when a lookup found a VDI: where the VDI as it was found is then migrated with success,
  -- and the VDIs can be listed, the next lookup does not find a VDI by the tag of the volume, but has to fall
  -- back on the name again.
  pub get_vdi_by_volume_id_of_stale :
      (vdi : Vdi) (sr new : Uuid) (s u t : S) (l : List Vdi)
      → UniqueIds (view.vdis s)
      → tagged lawful volume_id s ≡ []
      → get_vdi_by_volume_id lib vendor volume_id s ≡ (ok vdi, u)
      → migrate_vdi_and_wait lib vdi sr u ≡ (ok new, t)
      → (lib.vdi_get_all 2 (build_tag_filter vdi_tag_key_volume_id volume_id) t).0 ≡ ok l
      → get_vdi_by_volume_id lib vendor volume_id t ≡ get_vdi_by_name_label lib vendor volume_id t
  get_vdi_by_volume_id_of_stale vdi sr new s u t l unique none_has looked moved can_list =
      let (here, written_to) = fallback-Recovered vdi s u unique none_has looked in
      let (v, same, marked) = written_to in
      fallback_where_none t l
        (migrated-nowhere vdi sr new u t
          (subst (λ id. Only (volume_tag volume_id) id (view.vdis u)) same
            (Only-one (volume_tag volume_id) v (view.vdis u) marked))
          (has_tag_of_Memᴰ (volume_tag volume_id) (view.vdis s) vdi none_has here)
          (migrate_vdi_and_wait-IsFinished lib vdi sr new u t moved))
        can_list
