-- ===== src/Node/Stacks.antt =====
-- The calls of the node service never put one mount over another.
use xenorchestra_csi_driver.Base.{
  String, Bool, true, false, List, [], ◌∷◌, ◌++◌, contains, Result, pure, check, map_err, ◌≡◌, inl,
  inr, ◌==◌, string_eq, nat_eq, arith, sym, subst, ap, ◌∙◌, if◌then◌else◌, ltb, ◌<>◌, value_at,
  StringMap,
}
use xenorchestra_csi_driver.Errors.{Code, internal, invalid_argument}
use xenorchestra_csi_driver.Csi.{
  NodePublishVolumeRequest, NodeUnpublishVolumeRequest, NodeStageVolumeRequest,
  NodeUnstageVolumeRequest,
}
use xenorchestra_csi_driver.Library.{Library, Vendor}
use xenorchestra_csi_driver.World.{ReadsOnly}
use xenorchestra_csi_driver.World.Keeps.{
  Keeps, Keeps-pure, Keeps-fail, Keeps-of_read, Keeps-if, Keeps-check, Keeps-map_err,
  Keeps-check_read, map_err-world, refuse_if-world, map_err-eq_ok,
}
use xenorchestra_csi_driver.World.Leads.{Leads, Leads-after, Leads-map_err, Leads-if, Leads-Keeps}
use xenorchestra_csi_driver.XoClient.Storage.Reads.{is_sr_attached_to_vm_host-Keeps}
use xenorchestra_csi_driver.Mounter.{Mounter, Os}
use xenorchestra_csi_driver.Mounter.Table.{MountPoint, IsMounter, IsOs, is_mounted}
use xenorchestra_csi_driver.Mounter.Stacking.{NoStack, NoStack-append, NoStack-without_top}
use xenorchestra_csi_driver.Node.{
  source_path_of, fs_type_of, mount_options, bind_mount, node_publish_volume, node_unpublish_volume,
  refuse_missing, stage_device, node_stage_volume, unstage_unreferenced, node_unstage_volume,
}
use xenorchestra_csi_driver.Node.Requests.{
  node_publish_volume_of_IsPublishable, node_publish_volume_cases,
}
use xenorchestra_csi_driver.Node.Publishing.{bind-mount_options}
use xenorchestra_csi_driver.Node.Staging.{get_mount-world, required-world}

module _ {S : Type 0} {mounter : Mounter S} {mounts : S → List MountPoint}
    (is_mounter : IsMounter mounter mounts) where
  abbrev pub Unstacked : S → Type 0
  Unstacked s = NoStack (mounts s)

  unmount-Keeps : (path : String) → Keeps Unstacked (mounter.unmount path)
  unmount-Keeps path = record {
    at = λ s h. elim (is_mounter.mounts-unmount path s) [
      | inl e ↦ subst NoStack (sym e) h
      | inr e ↦ subst NoStack (sym e) (NoStack-without_top path (mounts s) h)
    ];
  }

  pub node_unpublish_volume-Keeps :
      (req : NodeUnpublishVolumeRequest) → Keeps Unstacked (node_unpublish_volume mounter req)
  unfolding node_unpublish_volume
  node_unpublish_volume-Keeps req =
      Keeps-check _ _ _ (Keeps-of_read _ (refuse_if-world (req.volume_id == "") invalid_argument))
        Keeps-fail
        (λ _.
          Keeps-check _ _ _
            (Keeps-of_read _ (refuse_if-world (req.target_path == "") invalid_argument)) Keeps-fail
            (λ _. Keeps-map_err _ _ (unmount-Keeps req.target_path)))

  pub device-Keeps :
      {P : S → Type 0} (path : String) → Keeps P (mounter.get_device_name_from_mount path)
  device-Keeps path = Keeps-of_read _ (is_mounter.device-world path)

  pub node_unstage_volume-Keeps :
      (req : NodeUnstageVolumeRequest) → Keeps Unstacked (node_unstage_volume mounter req)
  unfolding node_unstage_volume unstage_unreferenced
  node_unstage_volume-Keeps req =
      Keeps-check _ _ _ (Keeps-of_read _ (refuse_if-world (req.volume_id == "") invalid_argument))
        Keeps-fail
        (λ _.
          Keeps-check _ _ _
            (Keeps-of_read _ (refuse_if-world (req.staging_target_path == "") invalid_argument))
            Keeps-fail
            (λ _.
              Keeps-check _ _ _ (Keeps-map_err _ _ (device-Keeps req.staging_target_path))
                Keeps-fail
                (λ current.
                  Keeps-if (ltb current.1 1) _ _ (λ _. Keeps-pure tt)
                    (λ _.
                      Keeps-if (ltb 1 current.1) _ _ (λ _. Keeps-pure tt)
                        (λ _. Keeps-map_err _ _ (unmount-Keeps req.staging_target_path))))))

  mount_unless-NoStack :
      (source target fs_type : String) (options : List String) (seen : Bool) (s : S)
      → contains options "bind" ≡ true
      → seen ≡ is_mounted target (mounts s)
      → NoStack (mounts s)
      → NoStack (
          mounts
            ((if seen
                then pure tt
                else map_err {F = Code}
                    (λ _. internal)
                    (mounter.mount source target fs_type options))
              s).1)
  mount_unless-NoStack source target fs_type options true s bind e h = h
  mount_unless-NoStack source target fs_type options false s bind e h =
      subst (λ u. NoStack (mounts u))
        (sym (
          map_err-world {F = Code} (λ _. internal) (mounter.mount source target fs_type options) s))
        (elim (is_mounter.mounts-mount source target fs_type options s bind) [
          | inl (device, _, _, grown) ↦
              subst NoStack (sym grown)
                (NoStack-append (mounts s) (record { device = device; path = target }) (sym e) h)
          | inr (_, same) ↦ subst NoStack (sym same) h
        ])

module _ {S : Type 0} {os : Os S} {mounter : Mounter S} {mounts : S → List MountPoint}
    (is_os : IsOs os mounts) (is_mounter : IsMounter mounter mounts) where
  mkdir-Keeps :
      (P : List MountPoint → Type 0) (path : String) → Keeps (λ s. P (mounts s)) (os.mkdir_all path)
  mkdir-Keeps P path = record { at = λ s h. subst P (sym (is_os.mounts-mkdir_all path s)) h }

  bind_mount-Keeps :
      (source target fs_type : String) (options : List String)
      → contains options "bind" ≡ true
      → Keeps (λ s. NoStack (mounts s)) (bind_mount os mounter source target fs_type options)
  unfolding bind_mount
  bind_mount-Keeps source target fs_type options bind =
      Keeps-check _ _ _ (Keeps-map_err _ _ (mkdir-Keeps NoStack target)) Keeps-fail (λ _.
        Keeps-check_read _ _ _
          (λ t. map_err-world (λ _. internal) _ t ∙ is_mounter.point-world target t) Keeps-fail
          (λ seen t p answered.
            mount_unless-NoStack is_mounter source target fs_type options seen t bind
              (is_mounter.mount_point target t seen
                (map_err-eq_ok (λ _. internal) _ t seen answered))
              p))

  pub node_publish_volume-Keeps :
      (req : NodePublishVolumeRequest)
      → Keeps (λ s. NoStack (mounts s)) (node_publish_volume os mounter req)
  node_publish_volume-Keeps req = record {
    at = λ s h. elim (node_publish_volume_cases os mounter req s) [
      | inl (m, p) ↦
          subst (λ (r : Result Code (Unit {0}) × S). NoStack (mounts r.1))
            (sym (node_publish_volume_of_IsPublishable os mounter req s m p))
            ((bind_mount-Keeps (source_path_of req) req.target_path (fs_type_of m)
                (mount_options req.readonly) (bind-mount_options req.readonly)).at
              s h)
      | inr e ↦ subst (λ (r : Result Code (Unit {0}) × S). NoStack (mounts r.1)) (sym e) h
    ];
  }

module _ {S : Type 0} {lib : Library S} {os : Os S} {mounter : Mounter S}
    {mounts : S → List MountPoint} (reads : ReadsOnly lib) (vendor : Vendor)
    (is_os : IsOs os mounts) (is_mounter : IsMounter mounter mounts) (l : List MountPoint)
    (unstacked : NoStack l) where
  abbrev Before : S → Type 0
  Before s = mounts s ≡ l

  abbrev After : S → Type 0
  After s = NoStack (mounts s)

  weaken : (s : S) → Before s → After s
  weaken s h = subst NoStack (sym h) unstacked

  stat-Keeps : (path : String) → Keeps Before (check (os.stat path) refuse_missing pure)
  stat-Keeps path =
      Keeps-check _ _ _ (record { at = λ s h. is_os.mounts-stat path s ∙ h })
        (λ e. Keeps-of_read _ (λ s. ground arith)) Keeps-pure

  format-Leads :
      (source target fs_type : String)
      → is_mounted target l ≡ false
      → Leads Before After (mounter.format_and_mount source target fs_type [])
  format-Leads source target fs_type absent = record {
    to = λ s h. elim (is_mounter.mounts-format_and_mount source target fs_type [] s) [
      | inl (_, grown) ↦
          subst NoStack
            (sym (grown ∙ ap (λ k. k ++ record { device = source; path = target } ∷ []) h))
            (NoStack-append l (record { device = source; path = target }) absent unstacked)
      | inr (_, same) ↦ weaken _ (same ∙ h)
    ];
  }

  stage_device-Leads :
      (path staging fs_type : String) (context : StringMap)
      → is_mounted staging l ≡ false
      → Leads Before After (stage_device lib vendor os mounter path staging fs_type context)
  unfolding stage_device
  stage_device-Leads path staging fs_type context absent =
      Leads-after weaken _ _ (Keeps-of_read _ (refuse_if-world _ _)) λ _ _ _ _ h1.
        (Leads-after weaken _ _ (Keeps-of_read _ (required-world _)) λ vbd_id _ _ _ h2.
            (Leads-after weaken _ _
                (Keeps-map_err _ _ (is_sr_attached_to_vm_host-Keeps reads vendor vbd_id))
                λ _ _ _ _ h3.
                  (Leads-after weaken _ _ (stat-Keeps path) λ _ _ _ _ h4.
                      (Leads-map_err _ _ (format-Leads path staging fs_type absent)).to _ h4).to
                    _ h3).to
              _ h2).to
          _ h1

  pub node_stage_volume-Leads :
      (req : NodeStageVolumeRequest)
      → is_mounted req.staging_target_path l ≡ false
      → Leads Before After (node_stage_volume lib vendor os mounter req)
  unfolding node_stage_volume
  node_stage_volume-Leads req absent =
      Leads-after weaken _ _ (Keeps-of_read _ (refuse_if-world _ _)) λ _ _ _ _ h1.
        (Leads-after weaken _ _ (Keeps-of_read _ (refuse_if-world _ _)) λ _ _ _ _ h2.
            (Leads-after weaken _ _ (Keeps-of_read _ (required-world _)) λ capability _ _ _ h3.
                (Leads-after weaken _ _ (Keeps-of_read _ (get_mount-world capability.access_type))
                    λ m _ _ _ h4.
                      (Leads-after weaken _ _ (Keeps-of_read _ (refuse_if-world _ _)) λ _ _ _ _ h5.
                          (Leads-after weaken _ _
                              (Keeps-map_err _ _ (device-Keeps is_mounter req.staging_target_path))
                              λ current _ _ _ h6.
                                (Leads-if (current.0 == value_at "device" req.publish_context) _ _
                                    (Leads-Keeps _ weaken (Keeps-pure tt))
                                    (stage_device-Leads
                                      ("/dev/" <> value_at "device" req.publish_context)
                                      req.staging_target_path (fs_type_of m) req.publish_context
                                      absent)).to
                                  _ h6).to
                            _ h5).to
                        _ h4).to
                  _ h3).to
              _ h2).to
          _ h1
