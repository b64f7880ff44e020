-- ===== src/Startup/Ending.antt =====
-- How the process ends (cmd/xenorchestra-csi/main.go).
use xenorchestra_csi_driver.Base.{
  ℕ, String, false, Option, none, some, [], ◌∷◌, ◌++◌, Exec, Result, ok, err, panic, pure, check,
  resume, ◌≡◌, ◌≢◌, refl, has_prefix, ap, ◌∙◌, length,
}
use xenorchestra_csi_driver.Csi.{Driver}
use xenorchestra_csi_driver.Options.{DriverOptions}
use xenorchestra_csi_driver.Server.{
  Grpc, Process, not_a_unix_socket, run, start, serve, new_non_blocking_grpc_server,
}
use xenorchestra_csi_driver.Startup.{Build, Startup, Started, Fatal, new_driver, exit_0, main}
use xenorchestra_csi_driver.Startup.Choices.{new_driver-IsStarted}

logged-ok :
    {S E F : Type 0} (m : Exec S E (Unit {0})) (s : S)
    → (m s).0 ≢ panic
    → (check {F = F} m (λ _. pure tt) pure s).0 ≡ ok tt
unfolding check
logged-ok {S} {E} {F} m s calm = go (m s).0 calm
  where
    go :
        (r : Result E (Unit {0}))
        → r ≢ panic
        → (resume {S = S} {F = F} (λ _. pure tt) pure r (m s).1).0 ≡ ok tt
    go (ok tt) h = refl
    go (err e) h = refl
    go panic h = absurd (h refl)

module _ {S Server Listener : Type 0} (grpc : Grpc S Server Listener) where
  serve_of_not_unix :
      (i : ℕ) (endpoint : String) (ids cs ns : Option Driver) (p : Process S Server)
      → has_prefix endpoint "unix://" ≡ false
      → serve grpc i endpoint ids cs ns p ≡ (err not_a_unix_socket, p)
  unfolding serve check
  serve_of_not_unix i endpoint ids cs ns p h = rw h refl

  run_of_not_unix :
      (driver : Driver) (p : Process S Server)
      → has_prefix driver.endpoint "unix://" ≡ false
      → run grpc {E = Fatal} driver p ≡ (ok tt, record p { servers = p.servers ++ none ∷ [] })
  unfolding run start new_non_blocking_grpc_server check
  run_of_not_unix driver p h =
      rw
        (serve_of_not_unix (length p.servers) driver.endpoint (some driver) (some driver)
          (some driver) (record p { servers = p.servers ++ none ∷ [] }) h)
        refl

  run-ok :
      (driver : Driver) (p : Process S Server)
      → ((i : ℕ) (q : Process S Server)
          → (serve grpc i driver.endpoint (some driver) (some driver) (some driver) q).0 ≢ panic)
      → (run grpc {E = Fatal} driver p).0 ≡ ok tt
  unfolding run start new_non_blocking_grpc_server check
  run-ok driver p calm =
      rw
        (logged-ok {F = Fatal}
          (serve grpc (length p.servers) driver.endpoint (some driver) (some driver) (some driver))
          (record p { servers = p.servers ++ none ∷ [] })
          (calm (length p.servers) (record p { servers = p.servers ++ none ∷ [] })))
        refl

module _ {S KubeConfig KubeClient XoConfig XoSdk Server Listener : Type 0}
    (startup : Startup S KubeConfig KubeClient XoConfig XoSdk) (grpc : Grpc S Server Listener)
    (base_name : String) (build : Build) (options : DriverOptions)
    (started : Started KubeClient XoSdk) (p : Process S Server) (s : S)
    (made : new_driver startup build.driver_version options p.world ≡ (ok started, s)) where
  -- With an endpoint that is not a unix socket the process does not listen and serves nothing, and ends with
  -- status 0 as soon as the driver is made.
  pub main_of_not_unix :
      has_prefix options.endpoint "unix://" ≡ false
      → main startup grpc false base_name build options {E = Fatal} p
        ≡ (ok exit_0, record p { world = s; servers = p.servers ++ none ∷ [] })
  unfolding main check
  main_of_not_unix h =
      rw
        (
          made,
          run_of_not_unix grpc started.driver (record p { world = s })
              (ap (λ e. has_prefix e "unix://")
                  (new_driver-IsStarted startup build.driver_version options started p.world s
                    made).endpoint
                ∙ h),
        )
        refl

  -- Once the driver is made, the process ends with status 0, whatever errors the listening and the serving
  -- come back with, if they do not panic.
  pub main-exit_0 :
      ((i : ℕ) (q : Process S Server)
        → (serve grpc i started.driver.endpoint
            (some started.driver)
            (some started.driver)
            (some started.driver)
            q).0
          ≢ panic)
      → (main startup grpc false base_name build options {E = Fatal} p).0 ≡ ok exit_0
  unfolding main check
  main-exit_0 calm = rw (made, run-ok grpc started.driver (record p { world = s }) calm) refl
