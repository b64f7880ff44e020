-- ===== src/Controller/Ownership/Traces.antt =====
-- The VBDs over any sequence of calls of the controller service, each with any request and any outcome
-- (pkg/xenorchestra-csi/controllerserver.go).
use xenorchestra_csi_driver.Base.{ℕ, ◌≡◌, sym, subst}
use xenorchestra_csi_driver.Csi.{Driver}
use xenorchestra_csi_driver.Library.{Library, Vendor}
use xenorchestra_csi_driver.World.{View, IsLawful}
use xenorchestra_csi_driver.World.Orderly.{IsOrderly}
use xenorchestra_csi_driver.Controller.Ownership.{
  IsOwned, Step, create, delete, publish, unpublish, validate, Reach, here, next,
}
use xenorchestra_csi_driver.Controller.Ownership.Methods.{
  controller_publish_volume-IsOwned, controller_unpublish_volume-IsOwned,
}
use xenorchestra_csi_driver.Controller.Ownership.Volumes.{
  create_volume-IsOwned, delete_volume-IsOwned, validate_volume_capabilities_of-IsOwned,
}

module _ {S : Type 0} {lib : Library S} {vendor : Vendor} {view : View S}
    (lawful : IsLawful lib vendor view) (orderly : IsOrderly lib view) (driver : Driver)
    (ticks : ℕ) where
  after : {t u : S} → u ≡ t → IsOwned (view.vbds t) → IsOwned (view.vbds u)
  after e h = subst (λ w. IsOwned (view.vbds w)) (sym e) h

  Step-IsOwned :
      {s t : S} → Step lib vendor driver ticks s t → IsOwned (view.vbds s) → IsOwned (view.vbds t)
  Step-IsOwned {s} {t} (create req e) h =
      after e ((create_volume-IsOwned lawful orderly driver req).at s h)
  Step-IsOwned {s} {t} (delete volume_id e) h =
      after e ((delete_volume-IsOwned lawful orderly volume_id).at s h)
  Step-IsOwned {s} {t} (publish req e) h =
      after e ((controller_publish_volume-IsOwned lawful orderly driver ticks req).at s h)
  Step-IsOwned {s} {t} (unpublish req e) h =
      after e ((controller_unpublish_volume-IsOwned lawful orderly driver req).at s h)
  Step-IsOwned {s} {t} (validate req e) h =
      after e ((validate_volume_capabilities_of-IsOwned lawful orderly req).at s h)

  -- Whatever calls the controller service answers, in whatever order, on whatever storage and with
  -- whatever outcomes, no VDI comes to be attached to two VMs, if none was at first and the IDs of VBDs
  -- were unique; and they stay unique.
  pub Reach-IsOwned :
      {s t : S} → Reach lib vendor driver ticks s t → IsOwned (view.vbds s) → IsOwned (view.vbds t)
  Reach-IsOwned here h = h
  Reach-IsOwned (next r st) h = Step-IsOwned st (Reach-IsOwned r h)
