-- ===== src/Examples/Memory.antt =====
-- A small Xen Orchestra in memory to run the driver on. It meets the assumptions of `World`.
pub mod Identifiers
pub mod Filters
pub use Identifiers.*
pub use Filters.*
use xenorchestra_csi_driver.Base.{
  ℕ, zero, suc, String, Bool, true, not, Option, none, some, List, ◌++◌, map, keep, Result, ok, err,
  ◌≡◌, refl, inl, inr, ◌==◌, nat_eq, string_eq, char_eq, option_eq, if◌then◌else◌, ltb, ◌<>◌,
  <>_nil, after_prefix, arith, ap, ◌∙◌, sym, ok-injective,
}
use xenorchestra_csi_driver.Payloads.{
  Uuid, Vdi, Vbd, Vm, Pool, StorageRepository, success, VdiCreateParams, CreateVbdParams,
}
use xenorchestra_csi_driver.Library.{Library}
use xenorchestra_csi_driver.Mounter.Table.{MountPoint}
use xenorchestra_csi_driver.World.{
  View, IsLawful, plug, unplug, is_between, ReadsOnly, ListsOnly, IsCreated, is_of_vdi, has_tag,
  at_most_two, tag_vdi,
}

pub record Store : Type 0 where
  pub vdis : List Vdi
  pub vbds : List Vbd
  pub vms : List Vm
  pub pools : List Pool
  pub srs : List StorageRepository
  pub next : Uuid
  pub mounts : List MountPoint

abbrev pub find : {A : Type 0} → (A → Bool) → List A → Result String A
find p List.[] = err "API error: 404 Not Found"
find p (List.◌∷◌ x xs) = let later = find p xs in if p x then ok x else later

abbrev one {ℓ} : {A : Type ℓ} → A → List A
one x = List.◌∷◌ x List.[]

abbrev made : VdiCreateParams → Uuid → Vdi
made params id = record {
  id = id;
  pool_id = 0;
  sr = params.sr_id;
  size = params.virtual_size;
  name_label = params.name_label;
  name_description = params.name_description;
  tags = params.tags;
}

abbrev pub made_vbd : CreateVbdParams → Uuid → Vbd
made_vbd params id = record {
  id = id;
  vm = params.vm;
  vdi = some params.vdi;
  attached = true;
  device = some "xvdb";
}

-- An ID that no VBD has.
abbrev pub above : ℕ → List Vbd → ℕ
above n List.[] = n
above n (List.◌∷◌ b l) = let m = above n l in if ltb b.id m then m else suc b.id

-- An ID that no VBD names as its VDI's.
abbrev pub beyond : ℕ → List Vbd → ℕ
beyond n List.[] = n
beyond n (List.◌∷◌ b l) =
    let m = beyond n l in elim b.vdi [ none ↦ m | some id ↦ if ltb id m then m else suc id ]

-- An ID that no VDI has.
abbrev pub past : ℕ → List Vdi → ℕ
past n List.[] = n
past n (List.◌∷◌ v l) = let m = past n l in if ltb v.id m then m else suc v.id

-- A migrated VDI has a new ID and lost its tags.
abbrev pub relocate : Uuid → Uuid → Uuid → Vdi → Vdi
relocate id sr new vdi =
    if vdi.id == id then record vdi { id = new; sr = sr; tags = List.[] } else vdi

abbrev pub follow : Uuid → Uuid → Vbd → Vbd
follow id new vbd = if is_of_vdi id vbd then record vbd { vdi = some new } else vbd

-- The ID in the name of a task, if it has one.
abbrev pub result_of : Option Uuid → Uuid
result_of none = 0
result_of (some id) = id

-- A printed ID at the start of a text, and the text behind it.
abbrev read_id : String → Option (Uuid × String)
read_id String.[] = none
read_id (String.◌∷◌ c s) =
    let more = read_id s in
    if c == "i"
    then (elim more [ none ↦ none | some found ↦ some (suc found.0, found.1) ])
    else if c == "u"
    then some (0, s)
    else none

abbrev of_vm : Uuid → Option (Uuid × String) → List Vbd → List Vbd
of_vm id none vbds = keep (is_of_vdi id) vbds
of_vm id (some (vm, rest)) vbds = keep (is_between id vm) vbds

abbrev select : Option (Uuid × String) → List Vbd → List Vbd
select none vbds = List.[]
select (some (id, rest)) vbds = of_vm id (read_id (after_prefix rest " VM:")) vbds

abbrev pub of_filter : String → List Vbd → List Vbd
of_filter filter vbds = select (read_id (after_prefix filter "VDI:")) vbds

abbrev pub memory : Library Store
memory = record {
  new_v4 = λ s. (ok s.next, s);
  vdi_get = λ id s. (find (λ v. v.id == id) s.vdis, s);
  vdi_get_all = λ n f s. (ok (at_most_two (keep (has_tag (tag_in f)) s.vdis)), s);
  vdi_create = λ params s.
      let id = beyond (past s.next s.vdis) s.vbds in
      (ok id, record s { vdis = s.vdis ++ one (made params id); next = suc id });
  vdi_delete = λ id s. (ok tt, record s { vdis = keep (λ v. not (v.id == id)) s.vdis });
  vdi_add_tag = λ id tag s. (ok tt, record s { vdis = map (tag_vdi id tag) s.vdis });
  vdi_migrate = λ id sr s.
      let new = beyond (past s.next s.vdis) s.vbds in
      (
        ok (print new),
        record s {
          vdis = map (relocate id sr new) s.vdis;
          vbds = map (follow id new) s.vbds;
          next = suc new;
        },
      );
  vbd_get = λ id s. (find (λ b. b.id == id) s.vbds, s);
  vbd_get_all = λ n f s. (ok (of_filter f s.vbds), s);
  vbd_create = λ params s.
      let id = above s.next s.vbds in
      (ok id, record s { vbds = s.vbds ++ one (made_vbd params id); next = suc id });
  vbd_connect = λ id s. (ok "task", record s { vbds = map (plug id) s.vbds });
  vbd_disconnect = λ id s. (ok "task", record s { vbds = map (unplug id) s.vbds });
  task_wait = λ id s. (ok (record { status = success; result_id = result_of (scan id) }), s);
  vm_get_by_id = λ id s. (find (λ v. v.id == id) s.vms, s);
  pool_get = λ id s. (find (λ p. p.id == id) s.pools, s);
  pool_get_all = λ n f s. (ok s.pools, s);
  sr_get = λ id s. (find (λ r. r.id == id) s.srs, s);
  sr_get_all = λ n f s. (ok s.srs, s);
  pbd_get_all = λ n f s. (ok (one (record { id = 0 })), s);
}

abbrev pub view : View Store
view = record { vdis = λ s. s.vdis; vbds = λ s. s.vbds }

pub memory-ListsOnly : ListsOnly memory
memory-ListsOnly = record {
  new_v4 = λ s. refl;
  vdi_get = λ id s. refl;
  vdi_get_all = λ n f s. refl;
  vbd_get_all = λ n f s. refl;
  vm_get_by_id = λ id s. refl;
  pool_get = λ id s. refl;
  pool_get_all = λ n f s. refl;
  sr_get = λ id s. refl;
  sr_get_all = λ n f s. refl;
  pbd_get_all = λ n f s. refl;
}

pub memory-ReadsOnly : ReadsOnly memory
memory-ReadsOnly = record { lists = memory-ListsOnly; vbd_get = λ id s. refl }

read_id-print : (n : ℕ) (rest : String) → read_id (print n <> rest) ≡ some (n, rest)
unfolding char_eq
read_id-print zero rest = refl
read_id-print (suc n) rest = ground (arith, read_id-print n rest)

pub of_filter-print :
    (id : Uuid) (vbds : List Vbd) → of_filter ("VDI:" <> print id) vbds ≡ keep (is_of_vdi id) vbds
of_filter-print id vbds =
    ap (λ t. select (read_id t) vbds) (sym (<>_nil (print id)))
    ∙ ap (λ o. select o vbds) (read_id-print id "")

of_filter-between :
    (id vm : Uuid) (vbds : List Vbd)
    → of_filter ("VDI:" <> print id <> " VM:" <> print vm) vbds ≡ keep (is_between id vm) vbds
of_filter-between id vm vbds =
    ap (λ o. select o vbds) (read_id-print id (" VM:" <> print vm))
    ∙ ap (λ t. of_vm id (read_id t) vbds) (sym (<>_nil (print vm)))
    ∙ ap (λ o. of_vm id o vbds) (read_id-print vm "")

made-IsCreated :
    (params : VdiCreateParams) (id new : Uuid) → id ≡ new → IsCreated params new (made params id)
made-IsCreated params id new h = record {
  same_id = h;
  tags = refl;
  size = refl;
  sr = refl;
  name_label = refl;
  name_description = refl;
}

pub memory-IsLawful : IsLawful memory vendor view
memory-IsLawful = record {
  reads = memory-ListsOnly;
  vbds-vbd_get = λ id s. refl;
  vbds_of_vdi = λ id s l h. ok-injective (sym h) ∙ of_filter-print id s.vbds;
  vdis_by_tag = λ key value s l h.
      ok-injective (sym h)
      ∙ ap (λ tag. at_most_two (keep (has_tag tag) s.vdis)) (tag_in-build_tag_filter key value);
  vbds-add_tag = λ id tag s. refl;
  vdis-add_tag = λ id tag s. inl refl;
  vbds-delete = λ id s. refl;
  vdis-delete = λ id s. inl refl;
  vdis-create = λ params s new h.
      let id = beyond (past s.next s.vdis) s.vbds in
      (made params id, made-IsCreated params id new (ok-injective h), refl);
  vdis-create_any = λ params s.
      let id = beyond (past s.next s.vdis) s.vbds in
      inr (id, made params id, made-IsCreated params id id refl, refl);
  vbds-create = λ params s. inl (made_vbd params (above s.next s.vbds), refl, refl, refl);
  vbds-connect = λ id s. inl refl;
  vbds-wait = λ task_id s. refl;
  vbds_between = λ id vm s l h. ok-injective (sym h) ∙ of_filter-between id vm s.vbds;
  vbds-disconnect = λ id s. inl refl;
}
