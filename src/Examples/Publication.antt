-- ===== src/Examples/Publication.antt =====
-- A Xen Orchestra in memory that connects whatever it is asked to, and a publication on it.
use xenorchestra_csi_driver.Base.{
  ℕ, zero, suc, String, Option, none, Bool, not, true, some, List, [], ◌∷◌, Result, ok, err,
  if◌then◌else◌,
}
use xenorchestra_csi_driver.Payloads.{Uuid, Vbd}
use xenorchestra_csi_driver.Errors.{ApiError}
use xenorchestra_csi_driver.Library.{Library}
use xenorchestra_csi_driver.Controller.Publish.Progress.{is_plugged}
use xenorchestra_csi_driver.Examples.Memory.{Store, memory}
use xenorchestra_csi_driver.Examples.Data.{machine, released}

-- A VBD that is attached, with a device name or without.
abbrev find_plugged : Option String → Uuid → List Vbd → Result ApiError Vbd
find_plugged name id [] = err "API error: 404 Not Found"
find_plugged name id (b ∷ l) =
    let later = find_plugged name id l in
    if is_plugged id b then ok (record b { device = name }) else later

abbrev even : ℕ → Bool
even zero = true
even (suc n) = not (even n)

-- Time passes with each reading of a VBD: every second time its device has no name yet.
abbrev name_at : ℕ → Option String
name_at n = if even n then some "xvdb" else none

-- There is one VM.
abbrev hot : Library Store
hot = record memory {
  vbd_get = λ id s. (find_plugged (name_at s.next) id s.vbds, record s { next = suc s.next });
  vm_get_by_id = λ id s. (ok machine, s);
}

-- The VDI has no VBD.
abbrev vacant : Store
vacant = record released { vbds = [] }
