-- ===== src/Library/Documented.antt =====
-- What the driver relies on of the pure functions of other packages, as their documentation states
-- it. `lo.Uniq` keeps the first occurrence of each item, in order; `lo.FlatMapErr` stops at the first
-- error; a UUID is read back from its text.
use xenorchestra_csi_driver.Base.{
  Bool, true, false, not, ◌||◌, some, List, [], ◌∷◌, ◌++◌, StringMap, keep, contains, Result, ok,
  err, panic, ◌≡◌, ◌≢◌, refl, ◌==◌, nat_eq, if◌then◌else◌, arith, ◌∙◌, ap, sym,
}
use xenorchestra_csi_driver.Payloads.{Uuid}
use xenorchestra_csi_driver.Errors.{Error}
use xenorchestra_csi_driver.Library.{Vendor}

-- One more item of a flat map.
abbrev pub prepend : Result Error (List Uuid) → Result Error (List Uuid) → Result Error (List Uuid)
prepend (ok xs) (ok ys) = ok (xs ++ ys)
prepend (ok xs) (err e) = err e
prepend (ok xs) panic = panic
prepend (err e) r = err e
prepend panic r = panic

pub record IsDocumented (vendor : Vendor) : Type 0 where
  pub uniq-nil : vendor.uniq [] ≡ []
  pub uniq-cons :
      (x : Uuid) (xs : List Uuid)
      → vendor.uniq (x ∷ xs) ≡ x ∷ keep (λ y. not (y == x)) (vendor.uniq xs)
  pub flat_map_err-nil :
      (f : StringMap → Result Error (List Uuid)) → vendor.flat_map_err [] f ≡ ok []
  pub flat_map_err-cons :
      (t : StringMap) (ts : List StringMap) (f : StringMap → Result Error (List Uuid))
      → vendor.flat_map_err (t ∷ ts) f ≡ prepend (f t) (vendor.flat_map_err ts f)
  pub from_string-to_string : (id : Uuid) → vendor.from_string (vendor.to_string id) ≡ some id
  pub to_string-ne-empty : (id : Uuid) → vendor.to_string id ≢ ""

abbrev pub NoRepeats : List Uuid → Type 0
NoRepeats [] = Unit
NoRepeats (x ∷ xs) = (contains xs x ≡ false) × NoRepeats xs

contains-keep :
    (p : Uuid → Bool) (u : Uuid) (xs : List Uuid) → p u ≡ false → contains (keep p xs) u ≡ false
contains-keep p u [] h = refl
contains-keep p u (x ∷ xs) h = ground (arith, contains-keep p u xs h)

contains-keep_of_absent :
    (p : Uuid → Bool) (u : Uuid) (xs : List Uuid)
    → contains xs u ≡ false
    → contains (keep p xs) u ≡ false
contains-keep_of_absent p u [] h = refl
contains-keep_of_absent p u (x ∷ xs) h = ground (arith, contains-keep_of_absent p u xs)

NoRepeats-if :
    (b : Bool) (x : Uuid) (xs : List Uuid)
    → contains xs x ≡ false
    → NoRepeats xs
    → NoRepeats (if b then x ∷ xs else xs)
NoRepeats-if true x xs h u = (h, u)
NoRepeats-if false x xs h u = u

NoRepeats-keep : (p : Uuid → Bool) (xs : List Uuid) → NoRepeats xs → NoRepeats (keep p xs)
NoRepeats-keep p [] h = tt
NoRepeats-keep p (x ∷ xs) h =
    NoRepeats-if (p x) x (keep p xs) (contains-keep_of_absent p x xs h.0) (NoRepeats-keep p xs h.1)

contains-keep_ne :
    (x u : Uuid) (xs : List Uuid)
    → (x == u || contains (keep (λ y. not (y == x)) xs) u) ≡ (x == u || contains xs u)
contains-keep_ne x u [] = refl
contains-keep_ne x u (y ∷ xs) = ground (arith, contains-keep_ne x u xs)

keep-append : (p : Uuid → Bool) (xs ys : List Uuid) → keep p (xs ++ ys) ≡ keep p xs ++ keep p ys
keep-append p [] ys = refl
keep-append p (x ∷ xs) ys = ground (arith, keep-append p xs ys)

keep-keep :
    (x : Uuid) (xs ys : List Uuid)
    → keep (λ y. not (y == x)) (keep (λ y. not (contains xs y)) ys)
      ≡ keep (λ y. not (contains (x ∷ xs) y)) ys
keep-keep x xs [] = refl
keep-keep x xs (y ∷ ys) = ground (arith, keep-keep x xs ys)

keep_all : (ys : List Uuid) → keep (λ y. not (contains [] y)) ys ≡ ys
keep_all [] = refl
keep_all (y ∷ ys) = rw (keep_all ys)

module _ {vendor : Vendor} (documented : IsDocumented vendor) where
  pub NoRepeats-uniq : (xs : List Uuid) → NoRepeats (vendor.uniq xs)
  NoRepeats-uniq [] = rw documented.uniq-nil tt
  NoRepeats-uniq (x ∷ xs) = rw documented.uniq-cons (
    contains-keep (λ y. not (y == x)) x (vendor.uniq xs) (ground arith),
    NoRepeats-keep (λ y. not (y == x)) (vendor.uniq xs) (NoRepeats-uniq xs),
  )

  pub contains-uniq : (u : Uuid) (xs : List Uuid) → contains (vendor.uniq xs) u ≡ contains xs u
  contains-uniq u [] = rw documented.uniq-nil
  contains-uniq u (x ∷ xs) =
      rw documented.uniq-cons (contains-keep_ne x u (vendor.uniq xs) ∙ rw (contains-uniq u xs))

  -- Without repetition the items of the first list come first.
  pub uniq-append :
      (xs ys : List Uuid)
      → vendor.uniq (xs ++ ys) ≡ vendor.uniq xs ++ keep (λ y. not (contains xs y)) (vendor.uniq ys)
  uniq-append [] ys = rw documented.uniq-nil (sym (keep_all (vendor.uniq ys)))
  uniq-append (x ∷ xs) ys =
      documented.uniq-cons x (xs ++ ys)
      ∙ ap (λ l. x ∷ keep (λ y. not (y == x)) l) (uniq-append xs ys)
      ∙ ap (λ l. x ∷ l)
          (keep-append (λ y. not (y == x)) (vendor.uniq xs)
            (keep (λ y. not (contains xs y)) (vendor.uniq ys)))
      ∙ ap (λ l. x ∷ (keep (λ y. not (y == x)) (vendor.uniq xs) ++ l))
          (keep-keep x xs (vendor.uniq ys))
      ∙ ap (λ l. l ++ keep (λ y. not (contains (x ∷ xs) y)) (vendor.uniq ys))
          (sym (documented.uniq-cons x xs))
