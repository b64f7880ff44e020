-- ===== src/World.antt =====
-- What the driver relies on of Xen Orchestra: the documented effects of its calls on the VDIs and
-- VBDs, as hypotheses on a library. Reads change nothing, but that time may pass between two readings
-- of one VBD, and what they return, if they do, is what their filter selects. Nobody else acts on the
-- world during a call. Any call may fail.
pub mod Keeps
pub mod Leads
pub mod Naming
pub mod Orderly
pub mod Agrees
pub mod Returns
pub mod Tagging
pub mod Relocating
use xenorchestra_csi_driver.Base.{
  ℕ, zero, suc, String, Bool, true, false, not, ◌&&◌, Option, none, some, List, [], ◌∷◌, ◌++◌, map,
  keep, contains, any, Exec, Result, ok, err, panic, ◌≡◌, ◌≢◌, ◌⊎◌, ◌==◌, string_eq, nat_eq,
  option_eq, if◌then◌else◌, ◌<>◌,
}
use xenorchestra_csi_driver.Payloads.{
  Uuid, Vdi, Vbd, Vm, Pool, StorageRepository, VdiCreateParams, CreateVbdParams,
}
use xenorchestra_csi_driver.Library.{Library, Vendor}
use xenorchestra_csi_driver.Errors.{ApiError}
use xenorchestra_csi_driver.Tags.{build_tag}
use xenorchestra_csi_driver.XoClient.{build_tag_filter}

-- The VDIs and VBDs that there are.
pub record View (S : Type 0) : Type 0 where
  pub vdis : S → List Vdi
  pub vbds : S → List Vbd

abbrev pub is_of_vdi : Uuid → Vbd → Bool
is_of_vdi id vbd = vbd.vdi == some id

-- A VBD joins the VDI to a VM.
abbrev pub is_attached_to : Uuid → Vbd → Bool
is_attached_to id vbd = is_of_vdi id vbd && vbd.attached

-- What connecting a VBD does.
abbrev pub plug : Uuid → Vbd → Vbd
plug id vbd = if vbd.id == id then record vbd { attached = true } else vbd

-- What disconnecting a VBD does.
abbrev pub unplug : Uuid → Vbd → Vbd
unplug id vbd = if vbd.id == id then record vbd { attached = false } else vbd

abbrev pub is_between : Uuid → Uuid → Vbd → Bool
is_between vdi_id vm_uuid vbd = is_of_vdi vdi_id vbd && vbd.vm == vm_uuid

abbrev pub has_tag : String → Vdi → Bool
has_tag tag vdi = contains vdi.tags tag

abbrev pub at_most_two : List Vdi → List Vdi
at_most_two [] = []
at_most_two (v ∷ []) = v ∷ []
at_most_two (v ∷ w ∷ _) = v ∷ w ∷ []

-- A tag is added to one VDI; XO keeps tags without repetition.
abbrev pub tag_vdi : Uuid → String → Vdi → Vdi
tag_vdi id tag vdi =
    if vdi.id == id && not (contains vdi.tags tag)
    then record vdi { tags = vdi.tags ++ tag ∷ [] }
    else vdi

-- What a creation adds: a VDI with the new ID and the given parameters.
pub record IsCreated (params : VdiCreateParams) (id : Uuid) (vdi : Vdi) : Type 0 where
  pub same_id : vdi.id ≡ id
  pub tags : vdi.tags ≡ params.tags
  pub size : vdi.size ≡ params.virtual_size
  pub sr : vdi.sr ≡ params.sr_id
  pub name_label : vdi.name_label ≡ params.name_label
  pub name_description : vdi.name_description ≡ params.name_description

-- The calls that only read, but for the reading of one VBD, which may be polled: time passes between polls.
pub record ListsOnly {S : Type 0} (lib : Library S) : Type 0 where
  pub new_v4 : (s : S) → (lib.new_v4 s).1 ≡ s
  pub vdi_get : (id : Uuid) (s : S) → (lib.vdi_get id s).1 ≡ s
  pub vdi_get_all : (n : ℕ) (f : String) (s : S) → (lib.vdi_get_all n f s).1 ≡ s
  pub vbd_get_all : (n : ℕ) (f : String) (s : S) → (lib.vbd_get_all n f s).1 ≡ s
  pub vm_get_by_id : (id : Uuid) (s : S) → (lib.vm_get_by_id id s).1 ≡ s
  pub pool_get : (id : Uuid) (s : S) → (lib.pool_get id s).1 ≡ s
  pub pool_get_all : (n : ℕ) (f : String) (s : S) → (lib.pool_get_all n f s).1 ≡ s
  pub sr_get : (id : Uuid) (s : S) → (lib.sr_get id s).1 ≡ s
  pub sr_get_all : (n : ℕ) (f : String) (s : S) → (lib.sr_get_all n f s).1 ≡ s
  pub pbd_get_all : (n : ℕ) (f : String) (s : S) → (lib.pbd_get_all n f s).1 ≡ s

-- The calls that only read.
pub record ReadsOnly {S : Type 0} (lib : Library S) : Type 0 where
  pub lists : ListsOnly lib
  pub vbd_get : (id : Uuid) (s : S) → (lib.vbd_get id s).1 ≡ s

pub record IsLawful {S : Type 0} (lib : Library S) (vendor : Vendor) (view : View S) : Type 0 where
  pub reads : ListsOnly lib
  -- What is read of one VBD may change with time, but not which VBDs there are and what they join.
  pub vbds-vbd_get : (id : Uuid) (s : S) → view.vbds (lib.vbd_get id s).1 ≡ view.vbds s
  -- The filter "VDI:id" selects the VBDs of the VDI.
  pub vbds_of_vdi :
      (id : Uuid) (s : S) (l : List Vbd)
      → (lib.vbd_get_all 0 ("VDI:" <> vendor.to_string id) s).0 ≡ ok l
      → l ≡ keep (is_of_vdi id) (view.vbds s)
  -- The filter "tags:/^tag$/" selects the VDIs that carry the tag.
  pub vdis_by_tag :
      (key value : String) (s : S) (l : List Vdi)
      → (lib.vdi_get_all 2 (build_tag_filter key value) s).0 ≡ ok l
      → l ≡ at_most_two (keep (has_tag (build_tag key value)) (view.vdis s))
  pub vbds-add_tag :
      (id : Uuid) (tag : String) (s : S) → view.vbds (lib.vdi_add_tag id tag s).1 ≡ view.vbds s
  pub vdis-add_tag :
      (id : Uuid) (tag : String) (s : S)
      → (view.vdis (lib.vdi_add_tag id tag s).1 ≡ map (tag_vdi id tag) (view.vdis s))
        ⊎ (view.vdis (lib.vdi_add_tag id tag s).1 ≡ view.vdis s)
  -- With a VDI its own VBDs may go, and no others.
  pub vbds-delete :
      (id : Uuid) (s : S)
      → keep (λ b. not (is_of_vdi id b)) (view.vbds (lib.vdi_delete id s).1)
        ≡ keep (λ b. not (is_of_vdi id b)) (view.vbds s)
  pub vdis-delete :
      (id : Uuid) (s : S)
      → (view.vdis (lib.vdi_delete id s).1 ≡ keep (λ v. not (v.id == id)) (view.vdis s))
        ⊎ (view.vdis (lib.vdi_delete id s).1 ≡ view.vdis s)
  pub vdis-create :
      (params : VdiCreateParams) (s : S) (new : Uuid)
      → (lib.vdi_create params s).0 ≡ ok new
      → (vdi : Vdi) × IsCreated params new vdi
        × (view.vdis (lib.vdi_create params s).1 ≡ view.vdis s ++ vdi ∷ [])
  -- A creation that fails may have added its VDI all the same.
  pub vdis-create_any :
      (params : VdiCreateParams) (s : S)
      → (view.vdis (lib.vdi_create params s).1 ≡ view.vdis s)
        ⊎ ((new : Uuid) × (vdi : Vdi) × IsCreated params new vdi
            × (view.vdis (lib.vdi_create params s).1 ≡ view.vdis s ++ vdi ∷ []))
  -- A new VBD joins the VDI and the VM that it is created for.
  pub vbds-create :
      (params : CreateVbdParams) (s : S)
      → ((vbd : Vbd) × (vbd.vm ≡ params.vm)
          × (vbd.vdi ≡ some params.vdi)
          × (view.vbds (lib.vbd_create params s).1 ≡ view.vbds s ++ vbd ∷ []))
        ⊎ (view.vbds (lib.vbd_create params s).1 ≡ view.vbds s)
  -- What a task does counts for the call that starts it.
  pub vbds-connect :
      (id : Uuid) (s : S)
      → (view.vbds (lib.vbd_connect id s).1 ≡ map (plug id) (view.vbds s))
        ⊎ (view.vbds (lib.vbd_connect id s).1 ≡ view.vbds s)
  pub vbds-wait : (task_id : String) (s : S) → view.vbds (lib.task_wait task_id s).1 ≡ view.vbds s
  -- The filter "VDI:id VM:id" selects the VBDs between the VDI and the VM.
  pub vbds_between :
      (id vm_uuid : Uuid) (s : S) (l : List Vbd)
      → (lib.vbd_get_all 0
          ("VDI:" <> vendor.to_string id <> " VM:" <> vendor.to_string vm_uuid)
          s).0
        ≡ ok l
      → l ≡ keep (is_between id vm_uuid) (view.vbds s)
  pub vbds-disconnect :
      (id : Uuid) (s : S)
      → (view.vbds (lib.vbd_disconnect id s).1 ≡ map (unplug id) (view.vbds s))
        ⊎ (view.vbds (lib.vbd_disconnect id s).1 ≡ view.vbds s)
