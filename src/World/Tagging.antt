-- ===== src/World/Tagging.antt =====
-- What the adding of a tag to a VDI does to which VDIs carry a tag.
use xenorchestra_csi_driver.Base.{
  ℕ, String, Bool, true, false, List, [], ◌∷◌, ◌++◌, map, keep, contains, any-append, All, ok, ◌≡◌,
  refl, sym, ap, ◌∙◌, ◌==◌, nat_eq, string_eq, arith, Bool-cases, inl, inr, ◌||◌, subst,
}
use mathlib.Core.List.{Memᴰ}
use xenorchestra_csi_driver.Payloads.{Uuid, Vdi}
use xenorchestra_csi_driver.Library.{Library}
use xenorchestra_csi_driver.World.Naming.{All-at}
use xenorchestra_csi_driver.World.{View, has_tag, tag_vdi}

-- Adding a tag succeeds and takes effect.
pub record IsTagging {S : Type 0} (lib : Library S) (view : View S) : Type 0 where
  pub answered : (id : Uuid) (tag : String) (s : S) → (lib.vdi_add_tag id tag s).0 ≡ ok tt
  pub effective :
      (id : Uuid) (tag : String) (s : S)
      → view.vdis (lib.vdi_add_tag id tag s).1 ≡ map (tag_vdi id tag) (view.vdis s)

abbrev pub is_vdi : Uuid → Vdi → Bool
is_vdi id vdi = vdi.id == id

-- Whatever carries the tag has the ID.
abbrev pub Only : String → Uuid → List Vdi → Type 0
Only tag id = All (λ v. has_tag tag v ≡ true → is_vdi id v ≡ true)

-- `vdi` alone has the ID, and nothing else carries the tag.
pub record IsReserved (tag : String) (id : Uuid) (vdi : Vdi) (vdis : List Vdi) : Type 0 where
  pub alone : keep (is_vdi id) vdis ≡ vdi ∷ []
  pub only : Only tag id vdis

is_vdi-tag_vdi :
    (id new : Uuid) (tag : String) (v : Vdi) → is_vdi id (tag_vdi new tag v) ≡ is_vdi id v
is_vdi-tag_vdi id new tag v = ground arith

has_tag-append :
    (t tag : String) (tags : List String)
    → contains tags t ≡ true
    → contains (tags ++ tag ∷ []) t ≡ true
has_tag-append t tag tags h = rw (any-append (λ x. x == t) tags (tag ∷ []), h) refl

has_tag-tag_vdi :
    (t tag : String) (id : Uuid) (v : Vdi)
    → has_tag t v ≡ true
    → has_tag t (tag_vdi id tag v) ≡ true
has_tag-tag_vdi t tag id v h = let more = has_tag-append t tag v.tags h in ground (arith, more)

contains-append_self : (tag : String) (tags : List String) → contains (tags ++ tag ∷ []) tag ≡ true
contains-append_self tag [] = ground arith
contains-append_self tag (t ∷ tags) = ground (arith, contains-append_self tag tags)

tag_vdi-has_tag :
    (tag : String) (id : Uuid) (v : Vdi)
    → is_vdi id v ≡ true
    → has_tag tag (tag_vdi id tag v) ≡ true
tag_vdi-has_tag tag id v h = let last = contains-append_self tag v.tags in ground (arith, last)

keep-map :
    (p : Vdi → Bool) (f : Vdi → Vdi) (l : List Vdi)
    → ((v : Vdi) → p (f v) ≡ p v)
    → keep p (map f l) ≡ map f (keep p l)
keep-map p f [] h = refl
keep-map p f (v ∷ l) h = let same = h v in let rest = keep-map p f l h in ground (arith, same, rest)

Only-map :
    (t tag : String) (id : Uuid) (l : List Vdi) → Only t id l → Only t id (map (tag_vdi id tag) l)
Only-map t tag id [] h = tt
Only-map t tag id (v ∷ l) (h, more) =
    (λ carried. let here = h in ground (arith, here), Only-map t tag id l more)

-- Tagging the VDI keeps the tag reserved for it.
pub IsReserved-map :
    {t : String} (tag : String) {id : Uuid} {vdi : Vdi} {l : List Vdi}
    → IsReserved t id vdi l
    → IsReserved t id (tag_vdi id tag vdi) (map (tag_vdi id tag) l)
IsReserved-map {t} tag {id} {vdi} {l} r = record {
  alone =
      keep-map (is_vdi id) (tag_vdi id tag) l (is_vdi-tag_vdi id id tag)
      ∙ ap (map (tag_vdi id tag)) r.alone;
  only = Only-map t tag id l r.only;
}

keep-keep :
    (p q : Vdi → Bool) (l : List Vdi)
    → All (λ v. p v ≡ true → q v ≡ true) l
    → keep p l ≡ keep p (keep q l)
keep-keep p q [] h = refl
keep-keep p q (v ∷ l) (h, more) =
    let rest = keep-keep p q l more in let here = h in ground (arith, here, rest)

-- If the VDI carries the tag that is reserved for it, then it is the one that does.
pub keep-has_tag :
    {tag : String} {id : Uuid} {vdi : Vdi} {l : List Vdi}
    → IsReserved tag id vdi l
    → has_tag tag vdi ≡ true
    → keep (has_tag tag) l ≡ vdi ∷ []
keep-has_tag {tag} {id} {vdi} {l} r h =
    keep-keep (has_tag tag) (is_vdi id) l r.only
    ∙ ap (keep (has_tag tag)) r.alone
    ∙ ground (arith, h)

pub first_of_keep : (p : Vdi → Bool) (v : Vdi) (l k : List Vdi) → keep p l ≡ v ∷ k → p v ≡ true
first_of_keep p v [] k h = cc
first_of_keep p v (x ∷ l) k h = elim (Bool-cases (p x)) [
  | inl here ↦ ground (arith, h, here)
  | inr away ↦ first_of_keep p v l k (rw away at h)
]

pub IsReserved-is_vdi :
    {tag : String} {id : Uuid} {vdi : Vdi} {l : List Vdi}
    → IsReserved tag id vdi l
    → is_vdi id vdi ≡ true
IsReserved-is_vdi {tag} {id} {vdi} {l} r = first_of_keep (is_vdi id) vdi l [] r.alone

-- After the adding of `tag` the VDI carries `t`, if it did or `t` is `tag`.
pub tag_vdi-has_either :
    (t tag : String) (id : Uuid) (v : Vdi) (carried : Bool)
    → is_vdi id v ≡ true
    → (carried ≡ true → has_tag t v ≡ true)
    → (carried || tag == t) ≡ true
    → has_tag t (tag_vdi id tag v) ≡ true
tag_vdi-has_either t tag id v true its has h = has_tag-tag_vdi t tag id v (has refl)
tag_vdi-has_either t tag id v false its has h =
    let same : tag ≡ t = ground arith in
    subst (λ u. has_tag t (tag_vdi id u v) ≡ true) (sym same) (tag_vdi-has_tag t id v its)

-- An ID names one VDI.
abbrev pub UniqueIds : List Vdi → Type 0
UniqueIds vdis = All (λ v. keep (is_vdi v.id) vdis ≡ v ∷ []) vdis

-- The VDIs that a lookup returns are among those that there are.
pub record IsPresent {S : Type 0} (lib : Library S) (view : View S) : Type 0 where
  pub got : (id : Uuid) (s : S) (v : Vdi) → (lib.vdi_get id s).0 ≡ ok v → Memᴰ v (view.vdis s)
  pub listed :
      (n : ℕ) (filter : String) (s : S) (l : List Vdi) (v : Vdi)
      → (lib.vdi_get_all n filter s).0 ≡ ok l
      → Memᴰ v l
      → Memᴰ v (view.vdis s)

pub Only-none : (t : String) (id : Uuid) (l : List Vdi) → keep (has_tag t) l ≡ [] → Only t id l
Only-none t id [] h = tt
Only-none t id (v ∷ l) h = elim (Bool-cases (has_tag t v)) [
  | inl carried ↦ ground (arith, h, carried)
  | inr free ↦ (λ carried. cc, Only-none t id l (rw free at h))
]

-- A tag that nothing carries is reserved for every VDI that there is.
pub IsReserved-unused :
    (t : String) (l : List Vdi) (v : Vdi)
    → UniqueIds l
    → Memᴰ v l
    → keep (has_tag t) l ≡ []
    → IsReserved t v.id v l
IsReserved-unused t l v unique here unused = record {
  alone = All-at (λ x. keep (is_vdi x.id) l ≡ x ∷ []) l unique here;
  only = Only-none t v.id l unused;
}
