-- ===== src/XoClient/Vbds/Waiting.antt =====
-- The wait for a VBD ends, and only a VBD that is attached under a device name ends it well.
use xenorchestra_csi_driver.Base.{
  refl, ℕ, zero, suc, ◌<◌, true, Option, none, some, String, Bool-cases, inl, inr, ◌∙◌, ◌≡◌, ◌≢◌,
  Result, ok, err, panic, check, arith, string_eq,
}
use xenorchestra_csi_driver.Payloads.{Uuid, Vbd}
use xenorchestra_csi_driver.Errors.{ApiError}
use xenorchestra_csi_driver.Library.{Library}
use xenorchestra_csi_driver.XoClient.Vbds.{is_fully_attached, wait_for_vdi_to_be_fully_attached}

-- A VBD that a VM can use: it is attached under the name of a device.
pub record IsUsable (vbd : Vbd) : Type 0 where
  pub attached : vbd.attached ≡ true
  pub device : String
  pub known : vbd.device ≡ some device
  pub nonempty : device ≢ ""

is_fully_attached_of_usable : (vbd : Vbd) → IsUsable vbd → is_fully_attached vbd ≡ true
is_fully_attached_of_usable vbd usable =
    let nonempty = usable.nonempty in rw (usable.attached, usable.known) (ground (arith, nonempty))

-- The test of the wait lets through what can be used, and no more.
pub is_fully_attached-IsUsable : (vbd : Vbd) → is_fully_attached vbd ≡ true → IsUsable vbd
is_fully_attached-IsUsable vbd h = go vbd.device refl
  where
    go : (o : Option String) → vbd.device ≡ o → IsUsable vbd
    go none e = absurd (ground (arith, h, e))
    go (some device) e = record {
      attached = ground (arith, h);
      device = device;
      known = e;
      nonempty = λ empty. absurd (ground (arith, h, e, empty));
    }

module _ {S : Type 0} (lib : Library S) (vbd_id : Uuid) where
  -- The world before poll `n`, when nothing has ended the wait.
  abbrev pub before_poll : ℕ → S → S
  before_poll zero s = s
  before_poll (suc n) s = before_poll n (lib.vbd_get vbd_id s).1

  -- A poll that finds nothing to use, and does not panic.
  next_poll :
      (ticks : ℕ) (s : S)
      → ((v : Vbd) → (lib.vbd_get vbd_id s).0 ≡ ok v → ¬ IsUsable v)
      → (lib.vbd_get vbd_id s).0 ≢ panic
      → wait_for_vdi_to_be_fully_attached lib (suc ticks) vbd_id s
        ≡ wait_for_vdi_to_be_fully_attached lib ticks vbd_id (lib.vbd_get vbd_id s).1
  unfolding wait_for_vdi_to_be_fully_attached check
  next_poll ticks s waits calm = go (lib.vbd_get vbd_id s).0 refl
    where
      go :
          (r : Result ApiError Vbd)
          → (lib.vbd_get vbd_id s).0 ≡ r
          → wait_for_vdi_to_be_fully_attached lib (suc ticks) vbd_id s
            ≡ wait_for_vdi_to_be_fully_attached lib ticks vbd_id (lib.vbd_get vbd_id s).1
      go (ok v) e = elim (Bool-cases (is_fully_attached v)) [
        | inl full ↦ absurd (waits v e (is_fully_attached-IsUsable v full))
        | inr other ↦ rw (e, other) refl
      ]
      go (err x) e = rw e refl
      go panic e = absurd (calm e)

  -- If poll `n` finds the VBD attached under a device name that is not empty, no poll before it does, or
  -- panics, and `n` lies below the number of polls, the wait returns that VBD, and polls no more.
  pub wait_for_vdi_to_be_fully_attached_of_ready :
      (n ticks : ℕ) (s : S) (vbd : Vbd)
      → n < ticks
      → ((k : ℕ) (v : Vbd) → k < n → (lib.vbd_get vbd_id (before_poll k s)).0 ≡ ok v → ¬ IsUsable v)
      → ((k : ℕ) → k < n → (lib.vbd_get vbd_id (before_poll k s)).0 ≢ panic)
      → (lib.vbd_get vbd_id (before_poll n s)).0 ≡ ok vbd
      → IsUsable vbd
      → wait_for_vdi_to_be_fully_attached lib ticks vbd_id s
        ≡ (ok vbd, (lib.vbd_get vbd_id (before_poll n s)).1)
  unfolding wait_for_vdi_to_be_fully_attached check
  wait_for_vdi_to_be_fully_attached_of_ready n zero s vbd l waits calm h usable =
      absurd (omega arith)
  wait_for_vdi_to_be_fully_attached_of_ready zero (suc ticks) s vbd l waits calm h usable =
      rw (h, is_fully_attached_of_usable vbd usable) refl
  wait_for_vdi_to_be_fully_attached_of_ready (suc n) (suc ticks) s vbd l waits calm h usable =
      next_poll ticks s (λ v. waits 0 v (omega arith)) (calm 0 (omega arith))
      ∙ wait_for_vdi_to_be_fully_attached_of_ready n ticks (lib.vbd_get vbd_id s).1 vbd
          (omega arith) (λ k v lt. waits (suc k) v (omega arith))
          (λ k lt. calm (suc k) (omega arith)) h usable

  -- What a wait returns is attached and has a device name that is not empty.
  pub wait_for_vdi_to_be_fully_attached_sound :
      (ticks : ℕ) (s : S) {vbd : Vbd}
      → (wait_for_vdi_to_be_fully_attached lib ticks vbd_id s).0 ≡ ok vbd
      → is_fully_attached vbd ≡ true
  unfolding wait_for_vdi_to_be_fully_attached check
  wait_for_vdi_to_be_fully_attached_sound zero s {vbd} h = cc
  wait_for_vdi_to_be_fully_attached_sound (suc ticks) s {vbd} h =
      ground
        (arith, wait_for_vdi_to_be_fully_attached_sound ticks (lib.vbd_get vbd_id s).1 {vbd = vbd})

  -- One of the polls finds the VBD in use under a device name, and none before it panics.
  pub record IsAwaited (polls : ℕ) (s : S) : Type 0 where
    pub n : ℕ
    pub in_time : n < polls
    pub vbd : Vbd
    pub read : (lib.vbd_get vbd_id (before_poll n s)).0 ≡ ok vbd
    pub usable : IsUsable vbd
    pub calm : (k : ℕ) → k < n → (lib.vbd_get vbd_id (before_poll k s)).0 ≢ panic

  -- The wait, from its first poll on.
  later_poll :
      (ticks : ℕ) (s : S)
      → (lib.vbd_get vbd_id s).0 ≢ panic
      → ((vbd : Vbd) × ((wait_for_vdi_to_be_fully_attached lib ticks vbd_id
              (lib.vbd_get vbd_id s).1).0
            ≡ ok vbd)
          × IsUsable vbd)
      → (vbd : Vbd) × ((wait_for_vdi_to_be_fully_attached lib (suc ticks) vbd_id s).0 ≡ ok vbd)
        × IsUsable vbd
  unfolding wait_for_vdi_to_be_fully_attached check
  later_poll ticks s calm rest = go (lib.vbd_get vbd_id s).0 refl
    where
      go :
          (r : Result ApiError Vbd)
          → (lib.vbd_get vbd_id s).0 ≡ r
          → (vbd : Vbd) × ((wait_for_vdi_to_be_fully_attached lib (suc ticks) vbd_id s).0 ≡ ok vbd)
            × IsUsable vbd
      go (ok v) e = elim (Bool-cases (is_fully_attached v)) [
        | inl full ↦ (v, rw (e, full) refl, is_fully_attached-IsUsable v full)
        | inr other ↦ let (found, ran, its) = rest in (found, rw (e, other) ran, its)
      ]
      go (err x) e = let (found, ran, its) = rest in (found, rw e ran, its)
      go panic e = absurd (calm e)

  waited_for :
      (n ticks : ℕ) (s : S) (vbd : Vbd)
      → n < ticks
      → ((k : ℕ) → k < n → (lib.vbd_get vbd_id (before_poll k s)).0 ≢ panic)
      → (lib.vbd_get vbd_id (before_poll n s)).0 ≡ ok vbd
      → IsUsable vbd
      → (found : Vbd) × ((wait_for_vdi_to_be_fully_attached lib ticks vbd_id s).0 ≡ ok found)
        × IsUsable found
  unfolding wait_for_vdi_to_be_fully_attached check
  waited_for n zero s vbd l calm h usable = absurd (omega arith)
  waited_for zero (suc ticks) s vbd l calm h usable =
      (vbd, rw (h, is_fully_attached_of_usable vbd usable) refl, usable)
  waited_for (suc n) (suc ticks) s vbd l calm h usable = later_poll ticks s (calm 0 (omega arith)) (
      waited_for n ticks (lib.vbd_get vbd_id s).1 vbd (omega arith)
        (λ k lt. calm (suc k) (omega arith)) h usable)

  pub wait_for_vdi_to_be_fully_attached_of_awaited :
      (ticks : ℕ) (s : S)
      → IsAwaited ticks s
      → (found : Vbd) × ((wait_for_vdi_to_be_fully_attached lib ticks vbd_id s).0 ≡ ok found)
        × IsUsable found
  wait_for_vdi_to_be_fully_attached_of_awaited ticks s a =
      waited_for a.n ticks s a.vbd a.in_time a.calm a.read a.usable
