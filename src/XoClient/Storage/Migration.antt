-- ===== src/XoClient/Storage/Migration.antt =====
-- What a migration keeps (pkg/xenorchestra-csi/clients/xoclient.go).
use xenorchestra_csi_driver.Base.{
  String, List, [], ◌∷◌, nat_eq, ◌<>◌, has_prefix, arith, ◌≡◌, ok, sym, subst, ap, ◌∙◌, Exec,
  Result, pure, map_err, ◌>>=◌, ◌>>◌, >>=-eq_ok, ok-injective,
}
use xenorchestra_csi_driver.Payloads.{Uuid, Vdi, Task, success}
use xenorchestra_csi_driver.Errors.{Error, api, wrap}
use xenorchestra_csi_driver.Library.{Library}
use xenorchestra_csi_driver.Tags.{tag_prefix}
use xenorchestra_csi_driver.World.Keeps.{
  Keeps, Keeps-pure, Keeps-fail, Keeps-if, Keeps-of_read, Keeps-check, Keeps-map_err, map_err-eq_ok,
  map_err-world, >>=-eq_ok_of_read,
}
use xenorchestra_csi_driver.XoClient.Storage.{write_tags_to_vdi, migrated, migrate_vdi_and_wait}

module _ {S : Type 0} (lib : Library S) {P : S → Type 0}
    (tagging : (id : Uuid) (tag : String) → Keeps P (lib.vdi_add_tag id tag)) where
  pub write_tags_to_vdi-Keeps :
      (id : Uuid) (tags : List String) → Keeps P (write_tags_to_vdi lib id tags)
  unfolding write_tags_to_vdi
  write_tags_to_vdi-Keeps id [] = Keeps-pure tt
  write_tags_to_vdi-Keeps id (tag ∷ tags) =
      let rest = write_tags_to_vdi-Keeps id tags in
      Keeps-if (has_prefix tag (tag_prefix <> ":")) _ _
        (λ _. Keeps-check _ _ _ (tagging id tag) (λ _. rest) (λ _. rest)) (λ _. rest)

  migrated-Keeps : (task : Task) → Keeps P (migrated task)
  unfolding migrated
  migrated-Keeps task = Keeps-of_read _ (λ s. ground arith)

  pub migrate_vdi_and_wait-Keeps :
      (vdi : Vdi) (sr : Uuid)
      → Keeps P (lib.vdi_migrate vdi.id sr)
      → ((task_id : String) → Keeps P (lib.task_wait task_id))
      → Keeps P (migrate_vdi_and_wait lib vdi sr)
  unfolding migrate_vdi_and_wait
  migrate_vdi_and_wait-Keeps vdi sr moving waiting =
      Keeps-check _ _ _ (Keeps-map_err _ _ moving) Keeps-fail λ task_id.
        Keeps-check _ _ _ (Keeps-map_err _ _ (waiting task_id)) Keeps-fail λ task.
          Keeps-check _ _ _ (migrated-Keeps task) Keeps-fail λ id.
            Keeps-check _ _ _ (write_tags_to_vdi-Keeps id vdi.tags) Keeps-fail (λ _. Keeps-pure id)

module _ {S : Type 0} (task : Task) (s : S) where
  pub migrated-world : (migrated task s).1 ≡ s
  unfolding migrated
  migrated-world = ground arith

  -- Only a task that succeeded has a new VDI.
  pub migrated-eq_ok :
      (new : Uuid) → (migrated task s).0 ≡ ok new → (task.status ≡ success) × (task.result_id ≡ new)
  unfolding migrated
  migrated-eq_ok new h = ground arith

module _ {S : Type 0} (lib : Library S) (vdi : Vdi) (sr new : Uuid) (s t : S) where
  -- The world after the task of the migration.
  abbrev pub moved_world : String → S
  moved_world task_id = (lib.task_wait task_id (lib.vdi_migrate vdi.id sr s).1).1

  -- The calls of a migration that came back with the ID `new`.
  pub record IsFinished : Type 0 where
    pub task_id : String
    pub task : Task
    pub started : (lib.vdi_migrate vdi.id sr s).0 ≡ ok task_id
    pub waited : (lib.task_wait task_id (lib.vdi_migrate vdi.id sr s).1).0 ≡ ok task
    pub succeeded : task.status ≡ success
    pub its_id : task.result_id ≡ new
    pub copied : t ≡ (write_tags_to_vdi lib new vdi.tags (moved_world task_id)).1

  abbrev copy : Task → Exec S Error Uuid
  copy task = do id ← migrated task; write_tags_to_vdi lib id vdi.tags; pure id

  abbrev finish : String → Exec S Error Uuid
  finish task_id = do task ← map_err (λ e. wrap (api e.text)) (lib.task_wait task_id); copy task

  finish-IsFinished :
      (task_id : String)
      → (lib.vdi_migrate vdi.id sr s).0 ≡ ok task_id
      → finish task_id (lib.vdi_migrate vdi.id sr s).1 ≡ (ok new, t)
      → IsFinished
  finish-IsFinished task_id started h =
      let u = (lib.vdi_migrate vdi.id sr s).1 in
      let (task, e, h1) = >>=-eq_ok _ _ u h in
      let h2 =
        subst (λ x. copy task x ≡ (ok new, t))
          (map_err-world (λ e. wrap (api e.text)) (lib.task_wait task_id) u) h1 in
      let (id, done, h3) = >>=-eq_ok_of_read _ _ _ (migrated-world task _) h2 in
      let (succeeded, its_id) = migrated-eq_ok task _ id done in
      let (_, _, h4) = >>=-eq_ok _ _ _ h3 in
      let same : id ≡ new = ok-injective (ap (λ (r : Result Error Uuid × S). r.0) h4) in
      record {
        task_id = task_id;
        task = task;
        started = started;
        waited = map_err-eq_ok _ _ u task e;
        succeeded = succeeded;
        its_id = its_id ∙ same;
        copied =
            sym (ap (λ (r : Result Error Uuid × S). r.1) h4)
            ∙ ap (λ k. (write_tags_to_vdi lib k vdi.tags (moved_world task_id)).1) same;
      }

  pub migrate_vdi_and_wait-IsFinished : migrate_vdi_and_wait lib vdi sr s ≡ (ok new, t) → IsFinished
  unfolding migrate_vdi_and_wait
  migrate_vdi_and_wait-IsFinished h =
      let (task_id, h0, h1) = >>=-eq_ok _ _ s h in
      finish-IsFinished task_id (map_err-eq_ok _ _ s task_id h0) (
        subst (λ u. finish task_id u ≡ (ok new, t))
          (map_err-world (λ e. wrap (api e)) (lib.vdi_migrate vdi.id sr) s) h1)
