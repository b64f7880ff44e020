-- ===== src/Base/Effects.antt =====
-- Methods that change the world, and return, fail or panic.
use mathlib.Core.Path.{◌≡◌, refl}
use mathlib.Core.Bool.{Bool, true, false}

-- What a Go call comes back with: a value and a nil error, an error, or a panic.
pub data Result {ℓ κ} (E : Type ℓ) (A : Type κ) : Type (ℓ ⊔ κ) where
  ok : A → Result E A
  err : E → Result E A
  panic : Result E A

-- The world comes back beside an error too: what was written before it stays written.
abbrev pub Exec : Type 0 → Type 0 → Type 0 → Type 0
Exec S E A = S → Result E A × S

module _ {S : Type 0} {E A : Type 0} where
  abbrev pub pure : A → Exec S E A
  pure a s = (ok a, s)

  abbrev pub fail : E → Exec S E A
  fail e s = (err e, s)

  abbrev pub crash : Exec S E A
  crash s = (panic, s)

module _ {S : Type 0} {E F A B : Type 0} where
  abbrev pub resume : (E → Exec S F B) → (A → Exec S F B) → Result E A → Exec S F B
  resume h k (ok a) s = k a s
  resume h k (err e) s = h e s
  resume h k panic s = (panic, s)

  -- `a, err := m(); if err != nil { h } else { k }`
  unfoldable pub check : Exec S E A → (E → Exec S F B) → (A → Exec S F B) → Exec S F B
  check m h k s = resume h k (m s).0 (m s).1

module _ {S : Type 0} {E A B : Type 0} where
  infixl 5 ◌>>=◌ ◌>>◌
  -- `a, err := m(); if err != nil { return err }`
  abbrev pub ◌>>=◌ : Exec S E A → (A → Exec S E B) → Exec S E B
  m >>= k = check m fail k

  abbrev pub ◌>>◌ : Exec S E A → Exec S E B → Exec S E B
  m >> k = m >>= λ _. k

-- The error of `m` in the words of the caller.
abbrev pub map_err : {S E F A : Type 0} → (E → F) → Exec S E A → Exec S F A
map_err f m = check m (λ e. fail (f e)) pure

-- A guard: the early return of an error.
abbrev pub refuse_if : {S E : Type 0} → Bool → E → Exec S E (Unit {0})
refuse_if true e = fail e
refuse_if false e = pure tt

abbrev pub is_err : {E A : Type 0} → Result E A → Bool
is_err (ok a) = false
is_err (err e) = true
is_err panic = true

-- A pure call within the others.
abbrev pub of_result : {S E F A : Type 0} → (E → F) → Result E A → Exec S F A
of_result f (ok a) = pure a
of_result f (err e) = fail (f e)
of_result f panic = crash

pub ok-injective : {E A : Type 0} {a b : A} → ◌≡◌ {A = Result E A} (ok a) (ok b) → a ≡ b
ok-injective h = cc

-- Inversion of a step that came back with a value.
pub >>=-eq_ok :
    {S E A B : Type 0} (m : Exec S E A) (k : A → Exec S E B) (s : S) {b : B} {t : S}
    → (m >>= k) s ≡ (ok b, t)
    → (a : A) × ((m s).0 ≡ ok a) × (k a (m s).1 ≡ (ok b, t))
unfolding check
>>=-eq_ok {S} {E} {A} {B} m k s {b} {t} h = go (m s).0 refl h
  where
    go :
        (r : Result E A)
        → (m s).0 ≡ r
        → resume fail k r (m s).1 ≡ (ok b, t)
        → (a : A) × ((m s).0 ≡ ok a) × (k a (m s).1 ≡ (ok b, t))
    go (ok a) e q = (a, e, q)
    go (err x) e q = cc
    go panic e q = cc

-- Two continuations that agree.
pub >>=-ap :
    {S E A B : Type 0} (m : Exec S E A) (k k' : A → Exec S E B) (s : S)
    → ((a : A) (t : S) → k a t ≡ k' a t)
    → (m >>= k) s ≡ (m >>= k') s
unfolding check
>>=-ap {S} {E} {A} {B} m k k' s h = go (m s).0
  where
    go : (r : Result E A) → resume fail k r (m s).1 ≡ resume fail k' r (m s).1
    go (ok a) = h a (m s).1
    go (err e) = refl
    go panic = refl

-- Two first calls with the same outcome.
pub >>=-same :
    {S E A B : Type 0} (m m' : Exec S E A) (k : A → Exec S E B) (s : S)
    → m s ≡ m' s
    → (m >>= k) s ≡ (m' >>= k) s
unfolding check
>>=-same m m' k s h = λ i. resume fail k (h i).0 (h i).1
