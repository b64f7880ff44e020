-- ===== src/Server/Serving.antt =====
-- Which servers are served, and what a refused endpoint leads to (pkg/xenorchestra-csi/server.go).
use xenorchestra_csi_driver.Base.{
  ℕ, String, Bool, true, false, not, any, ◌&&◌, Option, none, some, List, [], ◌∷◌, ◌++◌, panic,
  check, map_err, ◌≡◌, refl, if◌then◌else◌, any-append, arith, ap, ◌∙◌, >>=-ap,
}
use xenorchestra_csi_driver.Csi.{Driver}
use xenorchestra_csi_driver.Server.{
  Service, identity, controller, node, Grpc, Process, ServeError, serve, serve_on, on_world,
  not_served,
}

abbrev is_identity : Service → Bool
is_identity identity = true
is_identity controller = false
is_identity node = false

-- The identity service is registered, and another.
abbrev pub is_complete : List Service → Bool
is_complete l = any is_identity l && any (λ service. not (is_identity service)) l

complete_of :
    (l : List Service) (second : Service)
    → is_identity second ≡ false
    → is_complete ((l ++ identity ∷ []) ++ second ∷ []) ≡ true
complete_of l second h =
    rw
      (
        any-append is_identity (l ++ identity ∷ []) (second ∷ []),
        any-append is_identity l (identity ∷ []),
        any-append (λ service. not (is_identity service)) (l ++ identity ∷ []) (second ∷ []),
        h,
      )
      (ground arith)

still_complete :
    (l : List Service) (more : Service) → is_complete l ≡ true → is_complete (l ++ more ∷ []) ≡ true
still_complete l more h =
    rw
      (
        any-append is_identity l (more ∷ []),
        any-append (λ service. not (is_identity service)) l (more ∷ []),
      )
      (ground (arith, h))

module _ {S Server Listener : Type 0} (grpc : Grpc S Server Listener)
    (registered : Server → S → List Service) where
  -- What a registration does to the services of a server.
  pub record IsRegistering : Type 0 where
    pub registers :
        (service : Service) (server : Server) (driver : Driver) (s : S)
        → registered server (grpc.register service server driver s)
          ≡ registered server s ++ service ∷ []

  -- A server that panics where it is to serve without the services.
  abbrev pub guarded : Grpc S Server Listener
  guarded = record grpc {
    serve = λ server listener s.
        if is_complete (registered server s) then grpc.serve server listener s else (panic, s);
  }

  module _ (registering : IsRegistering) where
    served :
        (server : Server) (listener : Listener) (p : Process S Server)
        → is_complete (registered server p.world) ≡ true
        → map_err {F = ServeError} (λ _. not_served) (on_world (guarded.serve server listener)) p
          ≡ map_err (λ _. not_served) (on_world (grpc.serve server listener)) p
    unfolding check
    served server listener p h = rw h refl

    by_two :
        (server : Server) (first second : Service) (c d : Driver) (s : S)
        → is_complete
            (registered server (grpc.register second server d (grpc.register first server c s)))
          ≡ is_complete ((registered server s ++ first ∷ []) ++ second ∷ [])
    by_two server first second c d s = ap is_complete (
        registering.registers second server d _
        ∙ ap (λ l. l ++ second ∷ []) (registering.registers first server c s))

    serve_on-guarded :
        (server : Server) (listener : Listener) (ids cs ns : Option Driver) (p : Process S Server)
        → serve_on guarded server listener ids cs ns p ≡ serve_on grpc server listener ids cs ns p
    unfolding serve_on check
    serve_on-guarded server listener none cs ns p = refl
    serve_on-guarded server listener (some d) none none p = refl
    serve_on-guarded server listener (some d) (some c) none p = served server listener _ (
        by_two server identity controller d c p.world
        ∙ complete_of (registered server p.world) controller refl)
    serve_on-guarded server listener (some d) none (some n) p = served server listener _ (
        by_two server identity node d n p.world ∙ complete_of (registered server p.world) node refl)
    serve_on-guarded server listener (some d) (some c) (some n) p = served server listener _ (
        ap is_complete (
          registering.registers node server n _
          ∙ ap (λ l. l ++ node ∷ []) (registering.registers controller server c _))
        ∙ ap (λ l. is_complete ((l ++ controller ∷ []) ++ node ∷ []))
            (registering.registers identity server d p.world)
        ∙ still_complete ((registered server p.world ++ identity ∷ []) ++ controller ∷ []) node
            (complete_of (registered server p.world) controller refl))

    -- Whatever services are given and whatever calls fail, a server is served only after the identity
    -- service and another service were registered with it: a server that panics otherwise acts the same.
    pub serve-guarded :
        (i : ℕ) (endpoint : String) (ids cs ns : Option Driver) (p : Process S Server)
        → serve guarded i endpoint ids cs ns p ≡ serve grpc i endpoint ids cs ns p
    unfolding serve
    serve-guarded i endpoint ids cs ns p = >>=-ap _ _ _ p λ _ p. >>=-ap _ _ _ p λ _ p.
        >>=-ap _ _ _ p
          λ listener p. >>=-ap _ _ _ p λ server p. serve_on-guarded server listener ids cs ns p
