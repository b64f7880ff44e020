-- ===== src/Examples/Creation.antt =====
-- The creation of a volume, asked for twice.
use xenorchestra_csi_driver.Base.{
  [], ◌∷◌, ok, ◌≡◌, refl, ap, check, nat_eq, option_eq, string_eq, char_eq,
}
use xenorchestra_csi_driver.World.Agrees.{IsApart}
use xenorchestra_csi_driver.Capabilities.{validate_volume_capability, validate_volume_capabilities}
use xenorchestra_csi_driver.Regex.{is_meta}
use xenorchestra_csi_driver.Topology.{
  tagged_pool_ids, ordered_pool_ids, try_pool, select_pool_and_storage,
}
use xenorchestra_csi_driver.XoClient.{
  build_tag_filter, find_vdi_by_volume_name, create_new_volume, new_volume_tags,
}
use xenorchestra_csi_driver.Controller.Create.{create_volume}
use xenorchestra_csi_driver.Controller.Create.Repeated.{create_volume_again}
use xenorchestra_csi_driver.Controller.Volumes.{delete_volume}
use xenorchestra_csi_driver.Controller.Lifecycle.{CanDelete, delete_volume-create_volume}
use xenorchestra_csi_driver.Examples.Ownership.{memory-IsOrderly}
use xenorchestra_csi_driver.Examples.Memory.{
  view, of_filter-print, memory, vendor, memory-IsLawful, vendor-IsDocumented,
}
use xenorchestra_csi_driver.Examples.Data.{
  driver, request, fresh, after_creation, new_volume_of_pv, new_disk,
}

memory-IsApart : IsApart memory
memory-IsApart = record {
  vdi_create = λ params s. record {
    pool_get = λ id. refl;
    pool_get_all = λ n f. refl;
    sr_get = λ id. refl;
    sr_get_all = λ n f. refl;
  };
}

creates :
    create_volume memory vendor driver (request "pv") fresh ≡ (ok new_volume_of_pv, after_creation)
unfolding create_volume check nat_eq string_eq char_eq option_eq validate_volume_capabilities
    validate_volume_capability ordered_pool_ids tagged_pool_ids select_pool_and_storage try_pool
    find_vdi_by_volume_name create_new_volume new_volume_tags build_tag_filter is_meta
creates = refl

create_volume_again_example :
    create_volume memory vendor driver (request "pv") after_creation
    ≡ (ok new_volume_of_pv, after_creation)
unfolding build_tag_filter is_meta nat_eq string_eq char_eq
create_volume_again_example =
    create_volume_again vendor-IsDocumented memory-IsLawful memory-IsApart driver (request "pv")
      fresh after_creation new_volume_of_pv (new_disk ∷ []) creates refl

can_delete : CanDelete memory vendor "iiiiiiiiiu" after_creation
unfolding build_tag_filter is_meta nat_eq string_eq char_eq
can_delete = record {
  vdis = new_disk ∷ [];
  listed = refl;
  vbds = λ id. [];
  used = λ id. ap ok (of_filter-print id []);
  deleted = λ id. refl;
}

delete_volume-create_volume_example :
    ((delete_volume memory vendor "iiiiiiiiiu" after_creation).0 ≡ ok tt)
    × (view.vdis (delete_volume memory vendor "iiiiiiiiiu" after_creation).1 ≡ view.vdis fresh)
unfolding build_tag_filter is_meta nat_eq string_eq char_eq
delete_volume-create_volume_example =
    delete_volume-create_volume memory-IsLawful memory-IsOrderly vendor-IsDocumented driver
      (request "pv") fresh after_creation new_volume_of_pv creates refl refl can_delete
