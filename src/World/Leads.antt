-- ===== src/World/Leads.antt =====
-- Calls that lead from one property of the world to another, and how methods are put together of them.
use xenorchestra_csi_driver.Base.{
  ◌≡◌, refl, Exec, Result, ok, err, panic, check, resume, pure, fail, Bool, true, false,
  if◌then◌else◌,
}
use xenorchestra_csi_driver.World.Keeps.{Keeps}

-- From a world with `P`, the call ends in a world with `Q`, however it ends.
pub record Leads {S E A : Type 0} (P Q : S → Type 0) (m : Exec S E A) : Type 0 where
  pub to : (from : S) → P from → Q (m from).1

Leads-resume :
    {S E F A B : Type 0} (R : S → Type 0) (handler : E → Exec S F B) (k : A → Exec S F B)
    (r : Result E A) (s : S)
    → ((e : E) → r ≡ err e → R (handler e s).1)
    → ((a : A) → r ≡ ok a → R (k a s).1)
    → R s
    → R (resume handler k r s).1
Leads-resume R handler k (ok a) s on_err on_ok q = on_ok a refl
Leads-resume R handler k (err e) s on_err on_ok q = on_err e refl
Leads-resume R handler k panic s on_err on_ok q = q

module _ {S E F A B : Type 0} {P Q R : S → Type 0} where
  -- A call and what follows it, which may use what the call returned.
  pub Leads-check :
      (m : Exec S E A) (handler : E → Exec S F B) (k : A → Exec S F B)
      → Leads P Q m
      → ((s : S) → Q s → R s)
      → ((e : E) → Leads Q R (handler e))
      → ((a : A) (s : S) → P s → Q (m s).1 → (m s).0 ≡ ok a → R (k a (m s).1).1)
      → Leads P R (check m handler k)
  unfolding check
  Leads-check m handler k first weaken failed rest = record {
    to = λ s p.
        let q = first.to s p in
        Leads-resume R handler k (m s).0 (m s).1 (λ e _. (failed e).to (m s).1 q)
          (λ a h. rest a s p q h) (weaken (m s).1 q);
  }

module _ {S E F A : Type 0} {P Q : S → Type 0} where
  pub Leads-map_err :
      (f : E → F) (m : Exec S E A) → Leads P Q m → Leads P Q (check m (λ e. fail (f e)) pure)
  Leads-map_err f m first =
      Leads-check m _ _ first (λ s q. q) (λ e. record { to = λ s q. q }) (λ a s p q h. q)

module _ {S E A B : Type 0} {P Q : S → Type 0} (weaken : (s : S) → P s → Q s) where
  -- The steps before keep `P`, and the rest leads on.
  pub Leads-after :
      (m : Exec S E A) (k : A → Exec S E B)
      → Keeps P m
      → ((a : A) (s : S) → (m s).0 ≡ ok a → P s → P (m s).1 → Q (k a (m s).1).1)
      → Leads P Q (check m fail k)
  Leads-after m k kept rest =
      Leads-check m fail k (record { to = kept.at }) weaken (λ e. record { to = weaken })
        (λ a s p q h. rest a s h p q)

-- The first step leads to `Q`, and the rest keeps it.
pub Leads-before :
    {S E A B : Type 0} {P Q : S → Type 0} (m : Exec S E A) (k : A → Exec S E B)
    → Leads P Q m
    → ((a : A) → Keeps Q (k a))
    → Leads P Q (check m fail k)
Leads-before m k first kept =
    Leads-check m fail k first (λ s q. q) (λ e. record { to = λ s q. q })
      (λ a s p q h. (kept a).at _ q)

pub Leads-if :
    {S E A : Type 0} {P Q : S → Type 0} (test : Bool) (taken other : Exec S E A)
    → Leads P Q taken
    → Leads P Q other
    → Leads P Q (if test then taken else other)
Leads-if true taken other l r = l
Leads-if false taken other l r = r

-- A call that keeps `Q`, where `P` is stronger.
pub Leads-Keeps :
    {S E A : Type 0} {P Q : S → Type 0} (m : Exec S E A)
    → ((s : S) → P s → Q s)
    → Keeps Q m
    → Leads P Q m
Leads-Keeps m weaken kept = record { to = λ s p. kept.at s (weaken s p) }
