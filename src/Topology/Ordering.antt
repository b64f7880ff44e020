-- ===== src/Topology/Ordering.antt =====
-- The order and the content of the pools that `OrderedPoolIDs` derives from a topology requirement.
use xenorchestra_csi_driver.Base.{
  Bool, false, not, ◌||◌, some, List, [], ◌∷◌, ◌++◌, StringMap, keep, contains, any, any-append,
  Result, ok, err, panic, ◌≡◌, refl, ◌==◌, nat_eq, ◌∙◌, sym, subst, ap, ok-injective,
}
use xenorchestra_csi_driver.Payloads.{Uuid}
use xenorchestra_csi_driver.Errors.{Error}
use xenorchestra_csi_driver.Csi.{TopologyRequirement}
use xenorchestra_csi_driver.Library.{Vendor}
use xenorchestra_csi_driver.Library.Documented.{
  IsDocumented, NoRepeats, NoRepeats-uniq, contains-uniq, uniq-append, prepend,
}
use xenorchestra_csi_driver.Topology.{
  pool_uuid_from_topology, pool_ids_of, join_ids, ordered_pool_ids,
}

-- The topology has the pool in its segment.
abbrev holds : Result Error (List Uuid) → Uuid → Bool
holds (ok l) u = contains l u
holds (err e) u = false
holds panic u = false

abbrev pub names : Vendor → Uuid → StringMap → Bool
names vendor u topo = holds (pool_uuid_from_topology vendor topo) u

contains-prepend :
    (u : Uuid) (r : Result Error (List Uuid)) (q : Result Error (List Uuid)) {l : List Uuid}
    → prepend r q ≡ ok l
    → (ys : List Uuid) × (q ≡ ok ys) × (contains l u ≡ (holds r u || contains ys u))
contains-prepend u (ok xs) (ok ys) {l} h =
    (ys, refl, rw (← ok-injective h) (any-append (λ x. x == u) xs ys))
contains-prepend u _ _ {l} h = cc

module _ {vendor : Vendor} (documented : IsDocumented vendor) where
  contains-pool_ids_of :
      (u : Uuid) (topos : List StringMap) {l : List Uuid}
      → pool_ids_of vendor topos ≡ ok l
      → contains l u ≡ any (names vendor u) topos
  contains-pool_ids_of u [] {l} h =
      let empty : [] ≡ l = ok-injective (sym (documented.flat_map_err-nil _) ∙ h) in rw (← empty)
  contains-pool_ids_of u (t ∷ topos) {l} h =
      let (ys, rest, e) =
        contains-prepend u (pool_uuid_from_topology vendor t) (pool_ids_of vendor topos)
          (sym (documented.flat_map_err-cons t topos (pool_uuid_from_topology vendor)) ∙ h) in
      e ∙ rw (contains-pool_ids_of u topos rest)

  -- What the two lists of a requirement give together.
  pub record IsOrdered (ar : TopologyRequirement) (ids : List Uuid) : Type 0 where
    pub preferred : List Uuid
    pub requisite : List Uuid
    pub from_preferred : pool_ids_of vendor ar.preferred ≡ ok preferred
    pub from_requisite : pool_ids_of vendor ar.requisite ≡ ok requisite
    pub in_order :
        ids
        ≡ vendor.uniq preferred ++ keep (λ u. not (contains preferred u)) (vendor.uniq requisite)
    pub no_repeats : NoRepeats ids
    pub complete :
        (u : Uuid)
        → contains ids u ≡ (any (names vendor u) ar.preferred || any (names vendor u) ar.requisite)

  join_ids-eq_ok :
      (p r : List Uuid) {ids : List Uuid}
      → join_ids vendor p r ≡ ok ids
      → vendor.uniq (p ++ r) ≡ ids
  join_ids-eq_ok [] [] h = cc
  join_ids-eq_ok [] (x ∷ r) h = ok-injective h
  join_ids-eq_ok (x ∷ p) r h = ok-injective h

  -- The pools of a requirement are listed without repetition; a pool is listed exactly if a preferred
  -- or a requisite topology names it; the preferred ones come first, in their order, and then those
  -- of the requisite that are not preferred, in theirs.
  pub ordered_pool_ids-IsOrdered :
      (ar : TopologyRequirement) (ids : List Uuid)
      → ordered_pool_ids vendor (some ar) ≡ ok ids
      → IsOrdered ar ids
  unfolding ordered_pool_ids
  ordered_pool_ids-IsOrdered ar ids h =
      go (pool_ids_of vendor ar.preferred) (pool_ids_of vendor ar.requisite) refl refl h
    where
      go :
          (p r : Result Error (List Uuid))
          → pool_ids_of vendor ar.preferred ≡ p
          → pool_ids_of vendor ar.requisite ≡ r
          → (elim p [
            | err e ↦ err e
            | panic ↦ panic
            | ok preferred ↦ elim r [
              | err e ↦ err e
              | panic ↦ panic
              | ok requisite ↦ join_ids vendor preferred requisite
            ]
          ])
            ≡ ok ids
          → IsOrdered ar ids
      go (ok p) (ok r) ep er e =
          let joined = join_ids-eq_ok p r e in
          record {
            preferred = p;
            requisite = r;
            from_preferred = ep;
            from_requisite = er;
            in_order = sym joined ∙ uniq-append documented p r;
            no_repeats = subst NoRepeats joined (NoRepeats-uniq documented (p ++ r));
            complete = λ u.
                ap (λ l. contains l u) (sym joined)
                ∙ contains-uniq documented u (p ++ r)
                ∙ any-append (λ x. x == u) p r
                ∙ cc (
                  contains-pool_ids_of u ar.preferred ep,
                  contains-pool_ids_of u ar.requisite er,
                );
          }
      go (ok p) (err x) ep er e = cc
      go (ok p) panic ep er e = cc
      go (err x) r ep er e = cc
      go panic r ep er e = cc
