-- ===== src/World/Returns.antt =====
-- Calls that come back with a result, one rule for each way to build a method.
use xenorchestra_csi_driver.Base.{
  ◌≡◌, refl, sym, subst, ap, ◌∙◌, Bool, true, false, Exec, Result, ok, check, resume, pure, map_err,
  refuse_if, if◌then◌else◌,
}
use xenorchestra_csi_driver.World.Keeps.{Keeps}

-- From a world with `P` the call returns some value, with which `Q` holds of the world after it.
pub record Returns {S E A : Type 0} (P : S → Type 0) (Q : A → S → Type 0) (m : Exec S E A)
    : Type 0 where
  pub run : (s : S) → P s → (a : A) × ((m s).0 ≡ ok a) × Q a (m s).1

module _ {S E A : Type 0} {P : S → Type 0} where
  pub Returns-pure :
      {Q : A → S → Type 0} (a : A) → ((s : S) → P s → Q a s) → Returns {E = E} P Q (pure a)
  Returns-pure a q = record { run = λ s p. (a, refl, q s p) }

  -- A call that keeps `P`, and returns a value with `Q` wherever `P` holds.
  pub Returns-Keeps :
      (Q : A → Type 0) (m : Exec S E A)
      → Keeps P m
      → ((s : S) → P s → (a : A) × ((m s).0 ≡ ok a) × Q a)
      → Returns P (λ a s. Q a × P s) m
  Returns-Keeps Q m kept answer = record {
    run = λ s p. let (a, e, q) = answer s p in (a, e, (q, kept.at s p));
  }

  -- Only the branch that is taken has to return.
  pub Returns-if :
      {Q : A → S → Type 0} (test : Bool) (taken other : Exec S E A)
      → (test ≡ true → Returns P Q taken)
      → (test ≡ false → Returns P Q other)
      → Returns P Q (if test then taken else other)
  Returns-if true taken other if_yes if_no = if_yes refl
  Returns-if false taken other if_yes if_no = if_no refl

module _ {S E F A B : Type 0} {P : S → Type 0} {Q : A → S → Type 0} {R : B → S → Type 0} where
  -- The handler does not run.
  pub Returns-check :
      (m : Exec S E A) (handler : E → Exec S F B) (k : A → Exec S F B)
      → Returns P Q m
      → ((a : A) → Returns (Q a) R (k a))
      → Returns P R (check m handler k)
  unfolding check
  Returns-check m handler k first rest = record {
    run = λ s p.
        let (a, e, q) = first.run s p in
        let (b, f, r) = (rest a).run (m s).1 q in
        let path : resume handler k (m s).0 (m s).1 ≡ k a (m s).1 =
          λ i. resume handler k (e i) (m s).1 in
        (
          b,
          ap (λ (x : Result F B × S). x.0) path ∙ f,
          subst (λ (x : Result F B × S). R b x.1) (sym path) r,
        );
  }

-- The call returns the value `a`.
pub Returns-known :
    {S E F A B : Type 0} {P Q : S → Type 0} {R : B → S → Type 0} (a : A) (m : Exec S E A)
    (handler : E → Exec S F B) (k : A → Exec S F B)
    → Returns P (λ b s. (b ≡ a) × Q s) m
    → Returns Q R (k a)
    → Returns P R (check m handler k)
Returns-known {B = B} {R = R} a m handler k first rest = Returns-check m handler k first λ b.
    record {
      run = λ s p.
          subst (λ c. (x : B) × ((k c s).0 ≡ ok x) × R x (k c s).1) (sym p.0) (rest.run s p.1);
    }

pub Returns-map_err :
    {S E F A : Type 0} {P : S → Type 0} {Q : A → S → Type 0} (f : E → F) (m : Exec S E A)
    → Returns P Q m
    → Returns P Q (map_err f m)
Returns-map_err f m first = Returns-check m _ _ first (λ a. Returns-pure a (λ s q. q))

pub Returns-refuse_if :
    {S E : Type 0} {P : S → Type 0} (refused : Bool) (error : E)
    → refused ≡ false
    → Returns P (λ _ s. P s) (refuse_if refused error)
Returns-refuse_if true error h = cc
Returns-refuse_if false error h = Returns-pure tt (λ s p. p)
