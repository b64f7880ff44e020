-- ===== src/Examples/Lookups.antt =====
-- A static VDI that is looked up twice, and volumes that are looked up after their VDIs were migrated.
use xenorchestra_csi_driver.Base.{
  All, err, true, ◌∙◌, some, Bool, false, String, [], ◌∷◌, List, ok, ◌≡◌, refl, sym, ap, subst,
  check, nat_eq, option_eq, string_eq, char_eq, ok-injective, inl, inr, arith, Result, keep,
  Bool-cases, map, any,
}
use mathlib.Core.List.{Memᴰ}
use mathlib.Core.List.Memᴰ
use xenorchestra_csi_driver.Payloads.{Uuid, Vdi, Task, success}
use xenorchestra_csi_driver.Regex.{is_meta}
use xenorchestra_csi_driver.Names.{recover_volume_name_from_vdi}
use xenorchestra_csi_driver.World.{at_most_two}
use xenorchestra_csi_driver.World.Tagging.{IsTagging, IsPresent, is_vdi}
use xenorchestra_csi_driver.World.Relocating.{IsForgetting, IsRelocating, IsRelocated}
use xenorchestra_csi_driver.XoClient.{
  tags_to_recover, build_tag_filter, get_vdi_by_volume_id, migrate_vdi_and_wait,
}
use xenorchestra_csi_driver.XoClient.Lookup.ByTag.{tagged}
use xenorchestra_csi_driver.XoClient.Lookup.Again.{get_vdi_by_volume_id_again}
use xenorchestra_csi_driver.Errors.{sentinel, err_volume_not_found, is_not_found_error}
use xenorchestra_csi_driver.XoClient.{get_vdi_by_name_label}
use xenorchestra_csi_driver.XoClient.Lookup.Stale.{get_vdi_by_volume_id_of_stale}
use xenorchestra_csi_driver.XoClient.Lookup.Migrated.{get_vdi_by_volume_id-migrate_vdi_and_wait}
use xenorchestra_csi_driver.Examples.Memory.{
  Store, find, print, result_of, scan, beyond, past, relocate, memory, vendor, view,
  memory-IsLawful, vendor-IsDocumented,
}
use xenorchestra_csi_driver.Examples.Ownership.{unused, at_least}
use xenorchestra_csi_driver.Examples.Data.{busy, disk, plug}

memory-IsTagging : IsTagging memory view
memory-IsTagging = record { answered = λ id tag s. refl; effective = λ id tag s. refl }

Memᴰ-find : (p : Vdi → Bool) (l : List Vdi) (v : Vdi) → find p l ≡ ok v → Memᴰ v l
Memᴰ-find p [] v h = cc
Memᴰ-find p (x ∷ l) v h = elim (Bool-cases (p x)) [
  | inl yes_it ↦
      let e : ◌≡◌ {A = Result String Vdi} (ok x) (ok v) = rw yes_it at h in
      Memᴰ.head (sym (ok-injective e))
  | inr other ↦ Memᴰ.tail (Memᴰ-find p l v (rw other at h))
]

Memᴰ-keep : (p : Vdi → Bool) (l : List Vdi) (v : Vdi) → Memᴰ v (keep p l) → Memᴰ v l
Memᴰ-keep p [] v m = m
Memᴰ-keep p (x ∷ l) v m = elim (Bool-cases (p x)) [
  | inl kept ↦
      let n : Memᴰ v (x ∷ keep p l) = rw kept at m in
      (elim (Memᴰ.cases_cons n) [
        | inl e ↦ Memᴰ.head e
        | inr later ↦ Memᴰ.tail (Memᴰ-keep p l v later)
      ])
  | inr dropped ↦ Memᴰ.tail (Memᴰ-keep p l v (rw dropped at m))
]

Memᴰ-at_most_two : (l : List Vdi) (v : Vdi) → Memᴰ v (at_most_two l) → Memᴰ v l
Memᴰ-at_most_two [] v m = m
Memᴰ-at_most_two (x ∷ []) v m = m
Memᴰ-at_most_two (x ∷ y ∷ l) v m = elim (Memᴰ.cases_cons m) [
  | inl e ↦ Memᴰ.head e
  | inr later ↦ (elim (Memᴰ.cases_cons later) [
    | inl e ↦ Memᴰ.tail (Memᴰ.head e)
    | inr none_left ↦ absurd (Memᴰ.not-nil none_left)
  ])
]

memory-IsPresent : IsPresent memory view
memory-IsPresent = record {
  got = λ id s v h. Memᴰ-find _ s.vdis v h;
  listed = λ n filter s l v h m.
      Memᴰ-keep _ s.vdis v (Memᴰ-at_most_two _ v (subst (Memᴰ v) (sym (ok-injective h)) m));
}

relocate-IsRelocated : (id sr new : Uuid) → IsRelocated id new (relocate id sr new)
relocate-IsRelocated id sr new = record {
  others = λ v h. ground arith;
  renamed = λ v h. ground arith;
}

-- The task of a migration names the new ID.
new_id :
    (new : Uuid) (task_id : String) (task : Task)
    → print new ≡ task_id
    → record { status = success; result_id = result_of (scan task_id) } ≡ task
    → task.result_id ≡ new
new_id new task_id task named waited =
    ap (λ (x : Task). x.result_id) (sym waited)
    ∙ ap (λ t. result_of (scan t)) (sym named)
    ∙ ap result_of (vendor-IsDocumented.from_string-to_string new)

memory-IsRelocating : IsRelocating memory view
memory-IsRelocating = record {
  relocated = λ id sr s task_id task h k done.
      let new = beyond (past s.next s.vdis) s.vbds in
      let below = at_least (past s.next s.vdis) s.vbds in
      let e = new_id new task_id task (ok-injective h) (ok-injective k) in
      subst
        (λ r.
          (any (is_vdi r) s.vdis ≡ false)
          × (move : Vdi → Vdi) × IsRelocated id r move
          × (map (relocate id sr new) s.vdis ≡ map move s.vdis))
        (sym e)
        (unused s.next new s.vdis below, relocate id sr new, relocate-IsRelocated id sr new, refl);
}

-- A VDI without tags, whose ID is the volume ID.
abbrev static_disk : Vdi
static_disk = record disk { tags = [] }

abbrev static : Store
static = record busy { vdis = static_disk ∷ [] }

abbrev adopted : Store
adopted = record static { vdis = record static_disk { tags = "k8s:volumeId:iiiiiu" ∷ [] } ∷ [] }

looks_up : get_vdi_by_volume_id memory vendor "iiiiiu" static ≡ (ok static_disk, adopted)
unfolding get_vdi_by_volume_id check char_eq string_eq nat_eq option_eq build_tag_filter is_meta
    tags_to_recover recover_volume_name_from_vdi
looks_up = refl

get_vdi_by_volume_id_again_example :
    (v : Vdi) × (v.id ≡ 5)
    × (tagged memory-IsLawful "iiiiiu" adopted ≡ v ∷ [])
    × (get_vdi_by_volume_id memory vendor "iiiiiu" adopted ≡ (ok v, adopted))
unfolding build_tag_filter is_meta nat_eq char_eq string_eq
get_vdi_by_volume_id_again_example =
    get_vdi_by_volume_id_again memory-IsLawful memory-IsTagging memory-IsPresent "iiiiiu"
      static_disk static adopted adopted.vdis (refl, tt) looks_up refl

abbrev relocated_disk : Vdi
relocated_disk = record disk { id = 9; sr = 4 }

abbrev after_migration : Store
after_migration = record busy {
  vdis = relocated_disk ∷ [];
  vbds = record plug { vdi = some 9 } ∷ [];
  next = 10;
}

migrates : migrate_vdi_and_wait memory disk 4 busy ≡ (ok 9, after_migration)
unfolding migrate_vdi_and_wait check char_eq string_eq nat_eq option_eq
migrates = refl

get_vdi_by_volume_id-migrate_vdi_and_wait_example :
    (v : Vdi) × (v.id ≡ 9)
    × (get_vdi_by_volume_id memory vendor "vol" after_migration ≡ (ok v, after_migration))
unfolding build_tag_filter is_meta nat_eq char_eq string_eq
get_vdi_by_volume_id-migrate_vdi_and_wait_example =
    get_vdi_by_volume_id-migrate_vdi_and_wait memory-IsLawful memory-IsTagging "vol"
      memory-IsRelocating disk 4 9 busy after_migration (relocated_disk ∷ []) refl refl migrates
      refl

bare_map :
    (id sr new : Uuid) (l : List Vdi)
    → any (is_vdi new) l ≡ false
    → All (λ v. is_vdi new v ≡ true → v.tags ≡ []) (map (relocate id sr new) l)
bare_map id sr new [] free = tt
bare_map id sr new (v ∷ l) free =
    (λ its. ground (arith, free, its), bare_map id sr new l (ground (arith, free)))

memory-IsForgetting : IsForgetting memory view
memory-IsForgetting = record {
  forgotten = λ id sr s task_id task h k done.
      let new = beyond (past s.next s.vdis) s.vbds in
      let below = at_least (past s.next s.vdis) s.vbds in
      subst (λ r. All (λ v. is_vdi r v ≡ true → v.tags ≡ []) (map (relocate id sr new) s.vdis))
        (sym (new_id new task_id task (ok-injective h) (ok-injective k)))
        (bare_map id sr new s.vdis (unused s.next new s.vdis below));
}

-- The static VDI has a new ID, and its volume ID is the old one.
abbrev lost : Store
lost = record static {
  vdis = record static_disk { id = 9; sr = 4 } ∷ [];
  vbds = record plug { vdi = some 9 } ∷ [];
  next = 10;
}

loses : migrate_vdi_and_wait memory static_disk 4 adopted ≡ (ok 9, lost)
unfolding migrate_vdi_and_wait check char_eq string_eq nat_eq option_eq
loses = refl

get_vdi_by_volume_id_of_stale_example :
    get_vdi_by_volume_id memory vendor "iiiiiu" lost
    ≡ get_vdi_by_name_label memory vendor "iiiiiu" lost
unfolding build_tag_filter is_meta nat_eq char_eq string_eq
get_vdi_by_volume_id_of_stale_example =
    get_vdi_by_volume_id_of_stale memory-IsLawful memory-IsTagging memory-IsPresent
      memory-IsRelocating memory-IsForgetting "iiiiiu" static_disk 4 9 static adopted lost []
      (refl, tt) refl looks_up loses refl

-- There the volume is not found at all.
not_found_any_more :
    get_vdi_by_volume_id memory vendor "iiiiiu" lost ≡ (err (sentinel err_volume_not_found), lost)
unfolding get_vdi_by_volume_id check char_eq string_eq nat_eq option_eq build_tag_filter is_meta
    is_not_found_error
not_found_any_more = refl
