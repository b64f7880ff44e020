-- ===== src/Topology/Selection.antt =====
-- Which pool `SelectPoolAndStorage` selects.
use mathlib.Core.Path.{fun_ext}
use xenorchestra_csi_driver.Base.{
  true, false, List, [], ◌∷◌, ◌++◌, Result, ok, err, panic, Exec, check, ◌≡◌, refl, ◌⊎◌, inl, inr,
  ◌==◌, nat_eq, if◌then◌else◌, arith, contains, subst, resume, Bool-cases, pure, sym,
}
use xenorchestra_csi_driver.Payloads.{Uuid, uuid_nil, Pool, StorageRepository}
use xenorchestra_csi_driver.Errors.{ApiError, Error}
use xenorchestra_csi_driver.Library.{Library}
use xenorchestra_csi_driver.Topology.{try_pool, select_pool_and_storage}

-- What makes a pool and an SR usable, as the library gave them: `before` is the world in which the
-- pool was asked for.
pub record IsViable {S : Type 0} (lib : Library S) (id : Uuid) (pool : Pool)
    (sr : StorageRepository) : Type 0 where
  pub before : S
  pub fetched : (lib.pool_get id before).0 ≡ ok pool
  pub has_default_sr : (pool.default_sr == uuid_nil) ≡ false
  pub default_sr : (lib.sr_get pool.default_sr (lib.pool_get id before).1).0 ≡ ok sr
  pub in_service : sr.in_maintenance_mode ≡ false

module _ {S : Type 0} (lib : Library S) where
  -- A search and then another, if the first found nothing.
  abbrev pub or_else :
      Exec S Error (Pool × StorageRepository)
      → Exec S Error (Pool × StorageRepository)
      → Exec S Error (Pool × StorageRepository)
  or_else m n = check m (λ _. n) pure

  or_else-try_pool :
      (id : Uuid) (m n : Exec S Error (Pool × StorageRepository)) (s : S)
      → or_else (try_pool lib id m) n s ≡ try_pool lib id (or_else m n) s
  unfolding try_pool check
  or_else-try_pool id m n s = ground arith

  -- The candidates are tried in order: those of the second part are tried only if the first part has
  -- no viable pool, and from the world that the first part left.
  select_pool_and_storage-append :
      (first later : List Uuid) (s : S)
      → select_pool_and_storage lib (first ++ later) s
        ≡ or_else (select_pool_and_storage lib first) (select_pool_and_storage lib later) s
  unfolding select_pool_and_storage
  select_pool_and_storage-append [] later s = unfold check in refl
  select_pool_and_storage-append (id ∷ first) later s =
      rw (fun_ext (select_pool_and_storage-append first later)) (sym (or_else-try_pool id _ _ s))

module _ {S : Type 0} (lib : Library S) (id : Uuid) (next : Exec S Error (Pool × StorageRepository))
    (found : Pool × StorageRepository) (s : S) where
  abbrev Found : Type 0
  Found = IsViable lib id found.0 found.1 ⊎ ((t : S) × ((next t).0 ≡ ok found))

  abbrev after_get : S
  after_get = (lib.pool_get id s).1

  with_sr :
      (pool : Pool) (r : Result ApiError StorageRepository) (t : S)
      → (lib.pool_get id s).0 ≡ ok pool
      → (pool.default_sr == uuid_nil) ≡ false
      → (lib.sr_get pool.default_sr after_get).0 ≡ r
      → (resume (λ _. next) (λ sr. if sr.in_maintenance_mode then next else pure (pool, sr)) r t).0
        ≡ ok found
      → Found
  with_sr pool (err e) t got some_sr e' h = inr (t, h)
  with_sr pool panic t got some_sr e' h = cc
  with_sr pool (ok sr) t got some_sr e' h = elim (Bool-cases sr.in_maintenance_mode) [
    | inl stopped ↦ inr (t, rw stopped at h)
    | inr running ↦
        let same : ◌≡◌ {A = Pool × StorageRepository} (pool, sr) found = ground arith in
        inl (
          subst (λ (f : Pool × StorageRepository). IsViable lib id f.0 f.1) same
            (record {
              before = s;
              fetched = got;
              has_default_sr = some_sr;
              default_sr = e';
              in_service = running;
            }))
  ]

  with_pool :
      (r : Result ApiError Pool)
      → (lib.pool_get id s).0 ≡ r
      → (resume
          (λ _. next)
          (λ pool.
            if pool.default_sr == uuid_nil
            then next
            else check
                (lib.sr_get pool.default_sr)
                (λ _. next)
                (λ sr. if sr.in_maintenance_mode then next else pure (pool, sr)))
          r
          after_get).0
        ≡ ok found
      → Found
  unfolding check
  with_pool (err e) got h = inr (after_get, h)
  with_pool panic got h = cc
  with_pool (ok pool) got h = elim (Bool-cases (pool.default_sr == uuid_nil)) [
    | inl none_set ↦ inr (after_get, rw none_set at h)
    | inr some_sr ↦ with_sr pool _ _ got some_sr refl (rw some_sr at h)
  ]

  try_pool_cases : (try_pool lib id next s).0 ≡ ok found → Found
  unfolding try_pool check
  try_pool_cases h = with_pool _ refl h

module _ {S : Type 0} (lib : Library S) where
  -- A pool that is selected stands among the candidates, has a default SR, and comes with that SR,
  -- which is not in maintenance: pool and SR are what the library returned for their IDs.
  pub select_pool_and_storage_sound :
      (candidates : List Uuid) (s : S) (pool : Pool) (sr : StorageRepository)
      → (select_pool_and_storage lib candidates s).0 ≡ ok (pool, sr)
      → (id : Uuid) × (contains candidates id ≡ true) × IsViable lib id pool sr
  unfolding select_pool_and_storage
  select_pool_and_storage_sound [] s pool sr h = cc
  select_pool_and_storage_sound (id ∷ later) s pool sr h =
      elim (try_pool_cases lib id (select_pool_and_storage lib later) (pool, sr) s h) [
        | inl viable ↦ (id, ground arith, viable)
        | inr (t, h') ↦
            let (other, listed, viable) = select_pool_and_storage_sound later t pool sr h' in
            (other, ground (arith, listed), viable)
      ]
