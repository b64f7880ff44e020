-- ===== src/Node/Phases/Calls.antt =====
-- The calls of the node service implement the state machine of a volume.
use xenorchestra_csi_driver.Base.{
  Option, none, some, List, [], ◌∷◌, ok, Exec, pure, ◌>>◌, ◌≡◌, refl, ◌==◌, string_eq, sym, subst,
  ap, ◌∙◌, value_at, >>=-eq_ok, Result, suc,
}
use xenorchestra_csi_driver.Errors.{Code}
use xenorchestra_csi_driver.Library.{Library, Vendor}
use xenorchestra_csi_driver.World.{ReadsOnly}
use xenorchestra_csi_driver.Mounter.{Mounter, Os}
use xenorchestra_csi_driver.Mounter.Table.{MountPoint, IsMounter, IsOs, device_at, references}
use xenorchestra_csi_driver.Mounter.Stacking.{device_at_of_absent, references-append_self}
use xenorchestra_csi_driver.Mounter.Unmounting.{IsUnmounted, restored, unmount-mounts}
use xenorchestra_csi_driver.Node.{
  source_path_of, node_publish_volume, node_unpublish_volume, node_stage_volume,
  node_unstage_volume,
}
use xenorchestra_csi_driver.Node.Publishing.{
  Mounted, node_publish_volume-Mounted, node_unpublish_volume-eq_ok,
}
use xenorchestra_csi_driver.Node.Staging.{Staged, node_stage_volume-Staged, staged_of_absent}
use xenorchestra_csi_driver.Node.Unstaging.{
  node_unstage_volume_of_published, node_unstage_volume_of_last, node_unstage_volume_of_absent,
}
use xenorchestra_csi_driver.Node.Lifecycle.{Life, IsUnused, device_path}
use xenorchestra_csi_driver.Node.Phases.{
  Phase, absent, staged, published, Call, stage_call, publish_call, unpublish_call, unstage_call,
  next_phase, staging_mount, target_mount, mounts_in, vacated, target_free, staging_shown,
  staging_still_shown, target_shown, published_of_Mounted, still_published_of_Mounted,
}

module _ {S : Type 0} (lib : Library S) (vendor : Vendor) (os : Os S) (mounter : Mounter S)
    (life : Life) where
  abbrev pub make_call : Call → Exec S Code (Unit {0})
  make_call stage_call = node_stage_volume lib vendor os mounter life.stage
  make_call publish_call = node_publish_volume os mounter life.publish
  make_call unpublish_call = node_unpublish_volume mounter life.unpublish
  make_call unstage_call = node_unstage_volume mounter life.unstage

  -- One call after another, each of which must succeed.
  abbrev pub make_calls : List Call → Exec S Code (Unit {0})
  make_calls [] = pure tt
  make_calls (c ∷ calls) = make_call c >> make_calls calls

abbrev pub later_phase : Option Phase → (Phase → Option Phase) → Option Phase
later_phase none f = none
later_phase (some phase) f = f phase

abbrev pub phase_after : List Call → Phase → Option Phase
phase_after [] phase = some phase
phase_after (c ∷ calls) phase = later_phase (next_phase phase c) (phase_after calls)

module _ {S : Type 0} {lib : Library S} {os : Os S} {mounter : Mounter S}
    {mounts : S → List MountPoint} (reads : ReadsOnly lib) (vendor : Vendor)
    (is_os : IsOs os mounts) (is_mounter : IsMounter mounter mounts) (life : Life)
    (l : List MountPoint) (unused : IsUnused life l) where
  -- The mounts of `life` at its target are gone.
  unpublish-IsUnmounted :
      (s s' : S) (before : List MountPoint)
      → mounts s ≡ before
      → node_unpublish_volume mounter life.unpublish s ≡ (ok tt, s')
      → IsUnmounted life.publish.target_path before (mounts s')
  unpublish-IsUnmounted s s' before e h =
      subst (λ p. IsUnmounted p before (mounts s')) life.same_target
        (subst (λ k. IsUnmounted life.unpublish.target_path k (mounts s')) e
          (unmount-mounts is_mounter life.unpublish.target_path s s'
            (node_unpublish_volume-eq_ok is_os is_mounter life.unpublish s s' h)))

  publish-Mounted :
      (s s' : S) (before : List MountPoint)
      → mounts s ≡ before
      → node_publish_volume os mounter life.publish s ≡ (ok tt, s')
      → Mounted life.stage.staging_target_path life.publish.target_path before (mounts s')
  publish-Mounted s s' before e h =
      subst (λ p. Mounted p life.publish.target_path before (mounts s')) life.source
        (subst (λ k. Mounted (source_path_of life.publish) life.publish.target_path k (mounts s')) e
          (node_publish_volume-Mounted is_os is_mounter life.publish s s' h))

  unstage_staged :
      (s s' : S)
      → mounts s ≡ mounts_in life l staged
      → node_unstage_volume mounter life.unstage s ≡ (ok tt, s')
      → mounts s' ≡ l
  unstage_staged s s' e h =
      restored (staging_mount life) l (mounts s) (mounts s') unused.staging e (
        subst (λ p. IsUnmounted p (mounts s) (mounts s')) life.same_staging
          (node_unstage_volume_of_last is_mounter life.unstage (device_path life.stage) s s'
            (ap (λ p. device_at p (mounts s)) life.same_staging
              ∙ ap (device_at life.stage.staging_target_path) e
              ∙ staging_shown life l unused)
            (ap (references (device_path life.stage)) e
              ∙ references-append_self (staging_mount life) l
              ∙ ap suc unused.device)
            h))

  unstage_published :
      (s s' : S)
      → mounts s ≡ mounts_in life l published
      → node_unstage_volume mounter life.unstage s ≡ (ok tt, s')
      → mounts s' ≡ mounts_in life l published
  unstage_published s s' e h =
      sym (ap (λ (p : Result Code (Unit {0}) × S). mounts p.1) h)
      ∙ node_unstage_volume_of_published is_mounter life.unstage (device_path life.stage)
          life.publish.target_path s
          (ap (λ p. p == life.publish.target_path) life.same_staging ∙ life.apart)
          (ap (λ p. device_at p (mounts s)) life.same_staging
            ∙ ap (device_at life.stage.staging_target_path) e
            ∙ staging_still_shown life l unused)
          (ap (device_at life.publish.target_path) e ∙ target_shown life l unused)
      ∙ e

  to_next :
      (here next : Phase) (k : List MountPoint)
      → some here ≡ some next
      → k ≡ mounts_in life l here
      → k ≡ mounts_in life l next
  to_next here next k n e = subst (λ p. k ≡ mounts_in life l p) (cc n) e

  call_in_absent :
      (c : Call) (next : Phase) (s s' : S)
      → next_phase absent c ≡ some next
      → mounts s ≡ l
      → make_call lib vendor os mounter life c s ≡ (ok tt, s')
      → mounts s' ≡ mounts_in life l next
  call_in_absent stage_call next s s' n e h = to_next staged next (mounts s') n (
      staged_of_absent unused.staging (
        subst
          (λ k.
            Staged (value_at "device" life.stage.publish_context) life.stage.staging_target_path k
              (mounts s'))
          e (node_stage_volume-Staged reads vendor is_os is_mounter life.stage s s' h)))
  call_in_absent publish_call next s s' n e h = cc
  call_in_absent unpublish_call next s s' n e h = to_next absent next (mounts s') n (
      vacated life.publish.target_path l (mounts s') unused.target
        (unpublish-IsUnmounted s s' l e h))
  call_in_absent unstage_call next s s' n e h = to_next absent next (mounts s') n (
      node_unstage_volume_of_absent is_mounter life.unstage s s'
        (ap (λ p. device_at p (mounts s)) life.same_staging
          ∙ ap (device_at life.stage.staging_target_path) e
          ∙ device_at_of_absent life.stage.staging_target_path l unused.staging)
        h
      ∙ e)

  call_in_staged :
      (c : Call) (next : Phase) (s s' : S)
      → next_phase staged c ≡ some next
      → mounts s ≡ mounts_in life l staged
      → make_call lib vendor os mounter life c s ≡ (ok tt, s')
      → mounts s' ≡ mounts_in life l next
  call_in_staged stage_call next s s' n e h = cc
  call_in_staged publish_call next s s' n e h =
      to_next published next (mounts s') n
        (published_of_Mounted life l unused (mounts s') (publish-Mounted s s' _ e h))
  call_in_staged unpublish_call next s s' n e h = to_next staged next (mounts s') n (
      vacated life.publish.target_path (mounts_in life l staged) (mounts s')
        (target_free life l unused) (unpublish-IsUnmounted s s' _ e h))
  call_in_staged unstage_call next s s' n e h =
      to_next absent next (mounts s') n (unstage_staged s s' e h)

  call_in_published :
      (c : Call) (next : Phase) (s s' : S)
      → next_phase published c ≡ some next
      → mounts s ≡ mounts_in life l published
      → make_call lib vendor os mounter life c s ≡ (ok tt, s')
      → mounts s' ≡ mounts_in life l next
  call_in_published stage_call next s s' n e h = cc
  call_in_published publish_call next s s' n e h = to_next published next (mounts s') n (
      still_published_of_Mounted life l unused life.stage.staging_target_path (mounts s')
        (publish-Mounted s s' _ e h))
  call_in_published unpublish_call next s s' n e h = to_next staged next (mounts s') n (
      restored (target_mount life) (mounts_in life l staged) (mounts_in life l published)
        (mounts s') (target_free life l unused) refl (unpublish-IsUnmounted s s' _ e h))
  call_in_published unstage_call next s s' n e h =
      to_next published next (mounts s') n (unstage_published s s' e h)

  make_call-mounts :
      (phase : Phase) (c : Call) (next : Phase) (s s' : S)
      → next_phase phase c ≡ some next
      → mounts s ≡ mounts_in life l phase
      → make_call lib vendor os mounter life c s ≡ (ok tt, s')
      → mounts s' ≡ mounts_in life l next
  make_call-mounts absent = call_in_absent
  make_call-mounts staged = call_in_staged
  make_call-mounts published = call_in_published

  later_phase-eq_some :
      (o : Option Phase) (f : Phase → Option Phase) (final : Phase)
      → later_phase o f ≡ some final
      → (next : Phase) × (o ≡ some next) × (f next ≡ some final)
  later_phase-eq_some none f final h = cc
  later_phase-eq_some (some next) f final h = (next, refl, h)

  -- The calls for one volume implement a state machine with the phases absent, staged and published: after
  -- any sequence of calls that the machine allows and that succeed, the mounts are those that were there
  -- before and those of the phase. Its two paths and its device were not in use before.
  pub make_calls-mounts :
      (calls : List Call) (phase final : Phase) (s t : S)
      → phase_after calls phase ≡ some final
      → mounts s ≡ mounts_in life l phase
      → make_calls lib vendor os mounter life calls s ≡ (ok tt, t)
      → mounts t ≡ mounts_in life l final
  make_calls-mounts [] phase final s t n e h =
      to_next phase final (mounts t) n
        (sym (ap (λ (p : Result Code (Unit {0}) × S). mounts p.1) h) ∙ e)
  make_calls-mounts (c ∷ calls) phase final s t n e h =
      let (next, n1, n2) = later_phase-eq_some (next_phase phase c) (phase_after calls) final n in
      let (_, called, h1) = >>=-eq_ok (make_call lib vendor os mounter life c) _ s h in
      let u = (make_call lib vendor os mounter life c s).1 in
      make_calls-mounts calls next final u t n2
        (make_call-mounts phase c next s u n1 e (λ i. (called i, u))) h1
