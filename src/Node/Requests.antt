-- ===== src/Node/Requests.antt =====
-- Which requests `NodePublishVolume` acts on.
use xenorchestra_csi_driver.Base.{
  Option, none, some, err, check, ◌≡◌, ◌≢◌, refl, ◌⊎◌, inl, inr, ◌==◌, string_eq, arith, Bool-cases,
}
use xenorchestra_csi_driver.Errors.{invalid_argument}
use xenorchestra_csi_driver.Csi.{
  AccessType, AccessMode, mount, MountVolume, VolumeCapability, single_node_writer,
  NodePublishVolumeRequest,
}
use xenorchestra_csi_driver.Capabilities.{validate_volume_capabilities, validate_volume_capability}
use xenorchestra_csi_driver.Mounter.{Mounter, Os}
use xenorchestra_csi_driver.Node.{
  source_path_of, fs_type_of, mount_options, bind_mount, node_publish_volume,
}

-- A request that can be acted on, with the mount that it asks for.
pub record IsPublishable (req : NodePublishVolumeRequest) (m : MountVolume) : Type 0 where
  pub capability : VolumeCapability
  pub given : req.volume_capability ≡ some capability
  pub by_mount : capability.access_type ≡ mount (some m)
  pub by_one : capability.access_mode ≡ some single_node_writer
  pub volume : req.volume_id ≢ ""
  pub target : req.target_path ≢ ""
  pub source : source_path_of req ≢ ""

module _ {S : Type 0} (os : Os S) (mounter : Mounter S) (req : NodePublishVolumeRequest)
    (s : S) where
  pub node_publish_volume_of_IsPublishable :
      (m : MountVolume)
      → IsPublishable req m
      → node_publish_volume os mounter req s
        ≡ bind_mount os mounter
            (source_path_of req)
            req.target_path
            (fs_type_of m)
            (mount_options req.readonly)
            s
  unfolding node_publish_volume check validate_volume_capabilities validate_volume_capability
  node_publish_volume_of_IsPublishable m h =
      rw (h.given, h.by_mount, h.by_one) (ground (arith, h.volume, h.target, h.source))

  abbrev Refused : Type 0
  Refused = node_publish_volume os mounter req s ≡ (err invalid_argument, s)

  abbrev Cases : Type 0
  Cases = ((m : MountVolume) × IsPublishable req m) ⊎ Refused

  by_texts :
      (c : VolumeCapability) (m : MountVolume)
      → req.volume_capability ≡ some c
      → c.access_type ≡ mount (some m)
      → c.access_mode ≡ some single_node_writer
      → Cases
  unfolding node_publish_volume check validate_volume_capabilities validate_volume_capability
  by_texts c m given by_mount by_one = elim (Bool-cases (req.volume_id == "")) [
    | inl e ↦ inr (rw (given, by_mount, by_one, e))
    | inr volume ↦ elim (Bool-cases (req.target_path == "")) [
      | inl e ↦ inr (rw (given, by_mount, by_one, volume, e))
      | inr target ↦ elim (Bool-cases (source_path_of req == "")) [
        | inl e ↦ inr (rw (given, by_mount, by_one, volume, target, e))
        | inr source ↦ inl (
          m,
          record {
            capability = c;
            given = given;
            by_mount = by_mount;
            by_one = by_one;
            volume = ground arith;
            target = ground arith;
            source = ground arith;
          },
        )
      ]
    ]
  ]

  by_access :
      (c : VolumeCapability) (a : AccessType) (mode : Option AccessMode)
      → req.volume_capability ≡ some c
      → c.access_type ≡ a
      → c.access_mode ≡ mode
      → Cases
  unfolding node_publish_volume check validate_volume_capabilities validate_volume_capability
  by_access c (mount (some m)) (some single_node_writer) given e f = by_texts c m given e f
  by_access c a mode given e f = inr (ground arith)

  by_capability : (o : Option VolumeCapability) → req.volume_capability ≡ o → Cases
  unfolding node_publish_volume check
  by_capability none e = inr (rw e)
  by_capability (some c) e = by_access c c.access_type c.access_mode e refl refl

  pub node_publish_volume_cases : Cases
  node_publish_volume_cases = by_capability req.volume_capability refl

  -- Any other request is refused as an invalid argument before anything is done.
  pub node_publish_volume_of_not_IsPublishable :
      ((m : MountVolume) → ¬ IsPublishable req m)
      → node_publish_volume os mounter req s ≡ (err invalid_argument, s)
  node_publish_volume_of_not_IsPublishable h = elim node_publish_volume_cases [
    | inl (m, p) ↦ absurd (h m p)
    | inr e ↦ e
  ]
