-- ===== src/Server.antt =====
-- pkg/xenorchestra-csi/server.go, and Run of xenorchestra-csi.go. Sockets and google.golang.org/grpc are
-- parameters. `Serve` blocks until the server is stopped; calls are taken one after another here.
pub mod Serving
pub mod Stopping
use xenorchestra_csi_driver.Base.{
  ℕ, zero, suc, String, Bool, true, false, not, ◌&&◌, Option, none, some, List, [], ◌∷◌, ◌++◌, Exec,
  Result, ok, pure, fail, check, map_err, refuse_if, ◌>>=◌, ◌>>◌, if◌then◌else◌, length, has_prefix,
  after_prefix,
}
use xenorchestra_csi_driver.Csi.{Driver}
use xenorchestra_csi_driver.Mounter.{HostError, StatError, not_exist, other_error}

pub data Service : Type 0 where
  identity controller node : Service

pub record Grpc (S Server Listener : Type 0) : Type 0 where
  -- `os.Remove` and `net.Listen`
  pub remove : String → Exec S StatError (Unit {0})
  pub listen : String → String → Exec S HostError Listener
  pub new_server : S → Server × S
  -- `csi.RegisterIdentityServer` and its kin
  pub register : Service → Server → Driver → S → S
  pub serve : Server → Listener → Exec S HostError (Unit {0})
  pub stop : Server → S → S
  pub graceful_stop : Server → S → S

-- The world; the objects of type nonBlockingGRPCServer, which are known by their place, each with its field
-- `server`; and whether the package's `stopOnce` was used.
pub record Process (S Server : Type 0) : Type 0 where
  pub world : S
  pub servers : List (Option Server)
  pub stop_once : Bool

pub data ServeError : Type 0 where
  not_a_unix_socket not_removed not_listening no_identity no_service not_served : ServeError

-- The field of an object.
abbrev pub server_of : {Server : Type 0} → ℕ → List (Option Server) → Option Server
server_of i [] = none
server_of zero (o ∷ servers) = o
server_of (suc i) (o ∷ servers) = server_of i servers

abbrev pub set_server : {Server : Type 0} → ℕ → Server → List (Option Server) → List (Option Server)
set_server i server [] = []
set_server zero server (o ∷ servers) = some server ∷ servers
set_server (suc i) server (o ∷ servers) = o ∷ set_server i server servers

abbrev pub is_none : {A : Type 0} → Option A → Bool
is_none none = true
is_none (some a) = false

-- Another error of `os.Remove` than that there is no such file.
abbrev pub refuse_present : {S : Type 0} → StatError → Exec S ServeError (Unit {0})
refuse_present not_exist = pure tt
refuse_present other_error = fail not_removed

abbrev pub given : {S A : Type 0} → Option A → Exec S ServeError A
given none = fail no_identity
given (some a) = pure a

module _ {S Server : Type 0} where
  abbrev pub on_world : {E A : Type 0} → Exec S E A → Exec (Process S Server) E A
  on_world m p = ((m p.world).0, record p { world = (m p.world).1 })

  -- `NewNonBlockingGRPCServer`, with the place of the new object
  unfoldable pub new_non_blocking_grpc_server : {E : Type 0} → Exec (Process S Server) E ℕ
  new_non_blocking_grpc_server p =
      (ok (length p.servers), record p { servers = p.servers ++ none ∷ [] })

  -- `stopOnce.Do` with what stops the object's server, if it has one.
  abbrev stop_by : (Server → S → S) → ℕ → Process S Server → Process S Server
  stop_by how i p = if p.stop_once then p else elim (server_of i p.servers) [
    | none ↦ record p { stop_once = true }
    | some server ↦ record p { world = how server p.world; stop_once = true }
  ]

module _ {S Server Listener : Type 0} (grpc : Grpc S Server Listener) where
  unfoldable pub graceful_stop : ℕ → Process S Server → Process S Server
  graceful_stop i p = stop_by grpc.graceful_stop i p

  unfoldable pub stop : ℕ → Process S Server → Process S Server
  stop i p = stop_by grpc.stop i p

  -- `server := grpc.NewServer(); s.server = server`
  abbrev pub make_server : ℕ → Exec (Process S Server) ServeError Server
  make_server i p =
      let made = grpc.new_server p.world in
      (ok made.0, record p { world = made.1; servers = set_server i made.0 p.servers })

  abbrev pub register_service :
      Service → Server → Driver → Exec (Process S Server) ServeError (Unit {0})
  register_service service server driver p =
      (ok tt, record p { world = grpc.register service server driver p.world })

  -- What is nil is not registered.
  abbrev pub register_given :
      Service → Server → Option Driver → Exec (Process S Server) ServeError (Unit {0})
  register_given service server none = pure tt
  register_given service server (some driver) = register_service service server driver

  -- From the registration on.
  unfoldable pub serve_on :
      Server
      → Listener
      → Option Driver
      → Option Driver
      → Option Driver
      → Exec (Process S Server) ServeError (Unit {0})
  serve_on server listener ids cs ns = do
    driver ← given ids
    register_service identity server driver
    refuse_if (is_none cs && is_none ns) no_service
    register_given controller server cs
    register_given node server ns
    map_err (λ _. not_served) (on_world (grpc.serve server listener))

  -- The services are those of a driver, or nil.
  unfoldable pub serve :
      ℕ
      → String
      → Option Driver
      → Option Driver
      → Option Driver
      → Exec (Process S Server) ServeError (Unit {0})
  unfolding serve_on
  serve i endpoint ids cs ns = do
    refuse_if (not (has_prefix endpoint "unix://")) not_a_unix_socket
    let addr = after_prefix endpoint "unix://"
    check (on_world (grpc.remove addr)) refuse_present pure
    listener ← map_err (λ _. not_listening) (on_world (grpc.listen "unix" addr))
    server ← make_server i
    serve_on server listener ids cs ns

  -- An error is only logged.
  unfoldable pub start :
      {E : Type 0}
      → ℕ
      → String
      → Option Driver
      → Option Driver
      → Option Driver
      → Exec (Process S Server) E (Unit {0})
  unfolding serve
  start i endpoint ids cs ns = check (serve i endpoint ids cs ns) (λ _. pure tt) pure

  unfoldable pub run : {E : Type 0} → Driver → Exec (Process S Server) E (Unit {0})
  unfolding start new_non_blocking_grpc_server
  run driver = do
    i ← new_non_blocking_grpc_server
    start i driver.endpoint (some driver) (some driver) (some driver)
    pure tt
