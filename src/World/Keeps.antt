-- ===== src/World/Keeps.antt =====
-- Invariants of calls, one rule for each way to build a method.
use xenorchestra_csi_driver.Base.{
  ◌≡◌, refl, sym, subst, Bool, true, false, Exec, Result, ok, err, panic, check, resume, pure, fail,
  if◌then◌else◌, arith, of_result, >>=-eq_ok, refuse_if,
}

-- `m` keeps `P`, whether it returns, fails or panics.
pub record Keeps {S E A : Type 0} (P : S → Type 0) (m : Exec S E A) : Type 0 where
  pub at : (before : S) → P before → P (m before).1

module _ {S E A : Type 0} {P : S → Type 0} where
  pub Keeps-fail : (error : E) → Keeps {A = A} P (fail error)
  Keeps-fail error = record { at = λ world before. before }

  pub Keeps-pure : (value : A) → Keeps {E = E} P (pure value)
  Keeps-pure value = record { at = λ world before. before }

  pub Keeps-of_read : (m : Exec S E A) → ((s : S) → (m s).1 ≡ s) → Keeps P m
  Keeps-of_read m same = record { at = λ s h. subst P (sym (same s)) h }

  -- Only the branch that is taken has to keep `P`.
  pub Keeps-if :
      (test : Bool) (taken other : Exec S E A)
      → (test ≡ true → Keeps P taken)
      → (test ≡ false → Keeps P other)
      → Keeps P (if test then taken else other)
  Keeps-if false taken other if_yes if_no = if_no refl
  Keeps-if true taken other if_yes if_no = if_yes refl

module _ {S E F A B : Type 0} {P : S → Type 0} where
  Keeps-resume :
      (h : E → Exec S F B) (k : A → Exec S F B)
      → ((e : E) → Keeps P (h e))
      → ((a : A) → Keeps P (k a))
      → (r : Result E A) (s : S) → P s
      → P (resume h k r s).1
  Keeps-resume h k kh kk (ok a) s p = (kk a).at s p
  Keeps-resume h k kh kk (err e) s p = (kh e).at s p
  Keeps-resume h k kh kk panic s p = p

  pub Keeps-check :
      (m : Exec S E A) (h : E → Exec S F B) (k : A → Exec S F B)
      → Keeps P m
      → ((e : E) → Keeps P (h e))
      → ((a : A) → Keeps P (k a))
      → Keeps P (check m h k)
  unfolding check
  Keeps-check m h k km kh kk = record {
    at = λ s p. Keeps-resume h k kh kk (m s).0 (m s).1 (km.at s p);
  }

pub Keeps-map_err :
    {S E F A : Type 0} {P : S → Type 0} (f : E → F) (m : Exec S E A)
    → Keeps P m
    → Keeps P (check m (λ e. fail (f e)) pure)
Keeps-map_err f m km = Keeps-check m _ _ km (λ e. Keeps-fail (f e)) (λ a. Keeps-pure a)

module _ {S E F A : Type 0} (f : E → F) (m : Exec S E A) (s : S) where
  -- Renaming the error changes neither the world nor a result that is no error.
  pub map_err-world : (check m (λ e. fail (f e)) pure s).1 ≡ (m s).1
  unfolding check
  map_err-world = ground arith

  pub map_err-eq_ok : (a : A) → (check m (λ e. fail (f e)) pure s).0 ≡ ok a → (m s).0 ≡ ok a
  unfolding check
  map_err-eq_ok a h = ground arith

  pub map_err-run :
      (a : A)
      → (check m (λ e. fail (f e)) pure s).0 ≡ ok a
      → m s ≡ (ok a, (check m (λ e. fail (f e)) pure s).1)
  map_err-run a h = λ i. (map_err-eq_ok a h i, sym map_err-world i)

module _ {S E F A B : Type 0} {P : S → Type 0} where
  -- What follows a read may use what the read returned.
  pub Keeps-check_read :
      (m : Exec S E A) (h : E → Exec S F B) (k : A → Exec S F B)
      → ((s : S) → (m s).1 ≡ s)
      → ((e : E) → Keeps P (h e))
      → ((a : A) (s : S) → P s → (m s).0 ≡ ok a → P (k a s).1)
      → Keeps P (check m h k)
  unfolding check
  Keeps-check_read m h k same kh kk = record {
    at = λ s p. subst (λ t. P (resume h k (m s).0 t).1) (sym (same s)) (go s p (m s).0 refl);
  }
    where
      go : (s : S) → P s → (r : Result E A) → (m s).0 ≡ r → P (resume h k r s).1
      go s p (ok a) e = kk a s p e
      go s p (err x) e = (kh x).at s p
      go s p panic e = p

module _ {S F B : Type 0} {P : S → Type 0} where
  -- What follows a guard runs only where the guard lets through.
  pub Keeps-guard :
      (refused : Bool) (e : F) (k : Unit {0} → Exec S F B)
      → (refused ≡ false → Keeps P (k tt))
      → Keeps P (check (refuse_if refused e) fail k)
  unfolding check
  Keeps-guard true e k kk = record { at = λ s h. h }
  Keeps-guard false e k kk = kk refl

pub guard_true-world :
    {S F B : Type 0} {refused : Bool} (e : F) (k : Unit {0} → Exec S F B) (s : S)
    → refused ≡ true
    → (check (refuse_if refused e) fail k s).1 ≡ s
unfolding check
guard_true-world e k s h = rw h

-- Inversion of a step that only reads and came back with a value.
pub >>=-eq_ok_of_read :
    {S E A B : Type 0} (m : Exec S E A) (k : A → Exec S E B) (s : S) {b : B} {t : S}
    → (m s).1 ≡ s
    → check m fail k s ≡ (ok b, t)
    → (a : A) × ((m s).0 ≡ ok a) × (k a s ≡ (ok b, t))
>>=-eq_ok_of_read m k s {b} {t} same h =
    let (a, e, rest) = >>=-eq_ok m k s h in (a, e, subst (λ u. k a u ≡ (ok b, t)) same rest)

pub refuse_if-world :
    {S E : Type 0} (refused : Bool) (e : E) (s : S) → (refuse_if refused e s).1 ≡ s
refuse_if-world true e s = refl
refuse_if-world false e s = refl

pub of_result-world :
    {S E F A : Type 0} (f : E → F) (r : Result E A) (s : S) → (of_result f r s).1 ≡ s
of_result-world f r s = ground arith
