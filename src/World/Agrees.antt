-- ===== src/World/Agrees.antt =====
-- Calls that only read, and read the same in two worlds.
use xenorchestra_csi_driver.Base.{
  ℕ, String, Bool, true, false, Exec, Result, ok, err, panic, check, resume, pure, fail, map_err,
  refuse_if, of_result, if◌then◌else◌, ◌≡◌, refl, ap, sym, ◌∙◌,
}
use xenorchestra_csi_driver.Payloads.{Uuid, VdiCreateParams}
use xenorchestra_csi_driver.Library.{Library}
use xenorchestra_csi_driver.World.{ListsOnly}

-- The call returns the same in both worlds, and leaves them as they are.
pub record Agrees {S E A : Type 0} (s t : S) (m : Exec S E A) : Type 0 where
  pub result : (m s).0 ≡ (m t).0
  pub first : (m s).1 ≡ s
  pub second : (m t).1 ≡ t

module _ {S E A : Type 0} {s t : S} where
  pub Agrees-pure : (value : A) → Agrees {E = E} s t (pure value)
  Agrees-pure value = record { result = refl; first = refl; second = refl }

  pub Agrees-fail : (error : E) → Agrees {A = A} s t (fail error)
  Agrees-fail error = record { result = refl; first = refl; second = refl }

  pub Agrees-if :
      (test : Bool) (taken other : Exec S E A)
      → Agrees s t taken
      → Agrees s t other
      → Agrees s t (if test then taken else other)
  Agrees-if true taken other l r = l
  Agrees-if false taken other l r = r

module _ {S E F A B : Type 0} {s t : S} (h : E → Exec S F B) (k : A → Exec S F B)
    (on_err : (e : E) → Agrees s t (h e)) (on_ok : (a : A) → Agrees s t (k a)) where
  resumed : (r : Result E A) → Agrees s t (resume h k r)
  resumed (ok a) = on_ok a
  resumed (err e) = on_err e
  resumed panic = record { result = refl; first = refl; second = refl }

  pub Agrees-check : (m : Exec S E A) → Agrees s t m → Agrees s t (check m h k)
  unfolding check
  Agrees-check m am = record {
    result =
        ap (λ u. (resume h k (m s).0 u).0) am.first
        ∙ ap (λ r. (resume h k r s).0) am.result
        ∙ (resumed (m t).0).result
        ∙ ap (λ u. (resume h k (m t).0 u).0) (sym am.second);
    first = ap (λ u. (resume h k (m s).0 u).1) am.first ∙ (resumed (m s).0).first;
    second = ap (λ u. (resume h k (m t).0 u).1) am.second ∙ (resumed (m t).0).second;
  }

pub Agrees-map_err :
    {S E F A : Type 0} {s t : S} (f : E → F) (m : Exec S E A)
    → Agrees s t m
    → Agrees s t (map_err f m)
Agrees-map_err f m am = Agrees-check _ _ (λ e. Agrees-fail (f e)) Agrees-pure m am

pub Agrees-refuse_if :
    {S E : Type 0} {s t : S} (refused : Bool) (error : E) → Agrees s t (refuse_if refused error)
Agrees-refuse_if true error = Agrees-fail error
Agrees-refuse_if false error = Agrees-pure tt

pub Agrees-of_result :
    {S E F A : Type 0} {s t : S} (f : E → F) (r : Result E A) → Agrees s t (of_result f r)
Agrees-of_result f (ok a) = Agrees-pure a
Agrees-of_result f (err e) = Agrees-fail (f e)
Agrees-of_result f panic = record { result = refl; first = refl; second = refl }

-- What the driver reads of pools and SRs is the same in both worlds.
pub record SamePools {S : Type 0} (lib : Library S) (s t : S) : Type 0 where
  pub pool_get : (id : Uuid) → (lib.pool_get id s).0 ≡ (lib.pool_get id t).0
  pub pool_get_all : (n : ℕ) (f : String) → (lib.pool_get_all n f s).0 ≡ (lib.pool_get_all n f t).0
  pub sr_get : (id : Uuid) → (lib.sr_get id s).0 ≡ (lib.sr_get id t).0
  pub sr_get_all : (n : ℕ) (f : String) → (lib.sr_get_all n f s).0 ≡ (lib.sr_get_all n f t).0

pub SamePools-refl : {S : Type 0} {lib : Library S} (s : S) → SamePools lib s s
SamePools-refl s = record {
  pool_get = λ id. refl;
  pool_get_all = λ n f. refl;
  sr_get = λ id. refl;
  sr_get_all = λ n f. refl;
}

pub SamePools-trans :
    {S : Type 0} {lib : Library S} {s t u : S}
    → SamePools lib s t
    → SamePools lib t u
    → SamePools lib s u
SamePools-trans p q = record {
  pool_get = λ id. p.pool_get id ∙ q.pool_get id;
  pool_get_all = λ n f. p.pool_get_all n f ∙ q.pool_get_all n f;
  sr_get = λ id. p.sr_get id ∙ q.sr_get id;
  sr_get_all = λ n f. p.sr_get_all n f ∙ q.sr_get_all n f;
}

-- A creation of a VDI is not seen in what the driver reads of pools and SRs.
pub record IsApart {S : Type 0} (lib : Library S) : Type 0 where
  pub vdi_create : (params : VdiCreateParams) (s : S) → SamePools lib s (lib.vdi_create params s).1

module _ {S : Type 0} {lib : Library S} (reads : ListsOnly lib) {s t : S}
    (same : SamePools lib s t) where
  pub pool_get-Agrees : (id : Uuid) → Agrees s t (lib.pool_get id)
  pool_get-Agrees id = record {
    result = same.pool_get id;
    first = reads.pool_get id s;
    second = reads.pool_get id t;
  }

  pub pool_get_all-Agrees : (n : ℕ) (f : String) → Agrees s t (lib.pool_get_all n f)
  pool_get_all-Agrees n f = record {
    result = same.pool_get_all n f;
    first = reads.pool_get_all n f s;
    second = reads.pool_get_all n f t;
  }

  pub sr_get-Agrees : (id : Uuid) → Agrees s t (lib.sr_get id)
  sr_get-Agrees id = record {
    result = same.sr_get id;
    first = reads.sr_get id s;
    second = reads.sr_get id t;
  }

  pub sr_get_all-Agrees : (n : ℕ) (f : String) → Agrees s t (lib.sr_get_all n f)
  sr_get_all-Agrees n f = record {
    result = same.sr_get_all n f;
    first = reads.sr_get_all n f s;
    second = reads.sr_get_all n f t;
  }
