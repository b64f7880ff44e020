-- ===== src/Examples/Memory/Identifiers.antt =====
-- Printed UUIDs, and a small `uuid` and `lo`, which meet `Library.Documented`.
use xenorchestra_csi_driver.Base.{
  ℕ, zero, suc, String, not, Option, none, some, List, keep, StringMap, Result, ok, ◌≡◌, refl, ◌≢◌,
  ◌==◌, nat_eq, string_eq, char_eq, option_eq, if◌then◌else◌, arith,
}
use xenorchestra_csi_driver.Payloads.{Uuid}
use xenorchestra_csi_driver.Errors.{Error}
use xenorchestra_csi_driver.Library.{Vendor}
use xenorchestra_csi_driver.Library.Documented.{IsDocumented, prepend}

abbrev pub print : Uuid → String
print zero = "u"
print (suc n) = String.◌∷◌ "i" (print n)

-- `none` where the text was not printed.
abbrev pub scan : String → Option Uuid
scan String.[] = none
scan (String.◌∷◌ c s) =
    let rest = scan s in
    if c == "i"
    then (elim rest [ none ↦ none | some n ↦ some (suc n) ])
    else if String.◌∷◌ c s == "u"
    then some 0
    else none

pub scan-print : (n : ℕ) → scan (print n) ≡ some n
unfolding char_eq string_eq
scan-print zero = refl
scan-print (suc n) = ground (arith, scan-print n)

abbrev distinct : List Uuid → List Uuid
distinct List.[] = List.[]
distinct (List.◌∷◌ x xs) = List.◌∷◌ x (keep (λ y. not (y == x)) (distinct xs))

abbrev gather : List StringMap → (StringMap → Result Error (List Uuid)) → Result Error (List Uuid)
gather List.[] f = ok List.[]
gather (List.◌∷◌ t ts) f = prepend (f t) (gather ts f)

abbrev pub vendor : Vendor
vendor = record {
  from_string = scan;
  to_string = print;
  uniq = distinct;
  flat_map_err = gather;
  pool_label = "topology.k8s.xenorchestra/pool_id";
}

print-ne-empty : (n : ℕ) → print n ≢ ""
print-ne-empty zero h = cc
print-ne-empty (suc n) h = cc

pub vendor-IsDocumented : IsDocumented vendor
vendor-IsDocumented = record {
  uniq-nil = refl;
  uniq-cons = λ x xs. refl;
  flat_map_err-nil = λ f. refl;
  flat_map_err-cons = λ t ts f. refl;
  from_string-to_string = scan-print;
  to_string-ne-empty = print-ne-empty;
}
