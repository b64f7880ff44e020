-- ===== src/Examples/Process.antt =====
-- Runs of the start of the program and of its server, and of their theorems.
use xenorchestra_csi_driver.Base.{
  ℕ, String, false, none, some, List, [], ◌∷◌, ◌++◌, ok, err, panic, pure, fail, check, ◌≡◌, ◌≢◌,
  refl, char_eq, string_eq, nat_eq, ◌==◌, if◌then◌else◌,
}
use xenorchestra_csi_driver.Options.{DriverOptions, default_options, new_driver_with_dependencies}
use xenorchestra_csi_driver.NodeMetadata.{
  KubernetesNode, Cluster, get_node_metadata_from_kubernetes,
}
use xenorchestra_csi_driver.Node.{node_get_info}
use xenorchestra_csi_driver.Node.Info.{IsReadable, node_get_info_of_kubernetes}
use xenorchestra_csi_driver.Mounter.{not_exist}
use xenorchestra_csi_driver.Server.{Service, identity, node, Grpc, Process, serve, serve_on}
use xenorchestra_csi_driver.Server.Serving.{guarded, IsRegistering, serve-guarded}
use xenorchestra_csi_driver.Server.Stopping.{
  stop_call, graceful_stop_call, after_call, after_calls, after_calls_once,
}
use xenorchestra_csi_driver.Startup.{
  Build, Startup, Started, from_kubernetes, Fatal, load_xo_config_from_file, load_config,
  new_driver, exit_0, main,
}
use xenorchestra_csi_driver.Startup.Choices.{IsStarted, new_driver_of_file, new_driver-IsStarted}
use xenorchestra_csi_driver.Startup.Ending.{main_of_not_unix, main-exit_0}
use xenorchestra_csi_driver.Examples.Memory.{Store, vendor, vendor-IsDocumented}
use xenorchestra_csi_driver.Examples.Data.{busy, machine, named_options, named_driver}

-- The events on servers, which are counted.
data Event : Type 0 where
  made : Event
  registered : Service → Event
  served stopped : Event

abbrev services : List Event → List Service
services [] = []
services (registered service ∷ events) = service ∷ services events
services (event ∷ events) = services events

services-append :
    (l : List Event) (service : Service)
    → services (l ++ registered service ∷ []) ≡ services l ++ service ∷ []
services-append [] service = refl
services-append (made ∷ l) service = services-append l service
services-append (registered s ∷ l) service = λ i. s ∷ services-append l service i
services-append (served ∷ l) service = services-append l service
services-append (stopped ∷ l) service = services-append l service

abbrev Log : Type 0
Log = List Event

abbrev grpc : Grpc Log (Unit {0}) String
grpc = record {
  remove = λ path. fail not_exist;
  listen = λ scheme path. pure path;
  new_server = λ s. (tt, s ++ made ∷ []);
  register = λ service server driver s. s ++ registered service ∷ [];
  serve = λ server listener s. (ok tt, s ++ served ∷ []);
  stop = λ server s. s ++ stopped ∷ [];
  graceful_stop = λ server s. s ++ stopped ∷ [];
}

grpc-IsRegistering : IsRegistering grpc (λ server. services)
grpc-IsRegistering = record { registers = λ service server driver s. services-append s service }

abbrev process : Process Log (Unit {0})
process = record { world = []; servers = none ∷ []; stop_once = false }

serves : serve grpc 0 "unix://tmp/csi.sock" (some named_driver) none (some named_driver) process ≡ (
  ok tt,
  record {
    world = made ∷ registered identity ∷ registered node ∷ served ∷ [];
    servers = some tt ∷ [];
    stop_once = false;
  },
)
unfolding serve serve_on check char_eq
serves = refl

serve-guarded_example :
    serve
      (guarded grpc (λ server. services))
      0
      "unix://tmp/csi.sock"
      (some named_driver)
      none
      (some named_driver)
      process
    ≡ serve grpc 0 "unix://tmp/csi.sock" (some named_driver) none (some named_driver) process
serve-guarded_example =
    serve-guarded grpc (λ server. services) grpc-IsRegistering 0 "unix://tmp/csi.sock"
      (some named_driver) none (some named_driver) process

-- Two servers, both of which are to be stopped.
abbrev serving : Process Log (Unit {0})
serving = record { world = []; servers = some tt ∷ some tt ∷ []; stop_once = false }

after_calls_once_example :
    after_calls grpc (stop_call 0 ∷ graceful_stop_call 1 ∷ []) serving
    ≡ after_call grpc (stop_call 0) serving
after_calls_once_example = after_calls_once grpc (stop_call 0) (graceful_stop_call 1 ∷ []) serving

abbrev startup : Startup Log (Unit {0}) String String String
startup = record {
  in_cluster_config = pure tt;
  new_for_config = λ config. pure "kubernetes";
  stat = λ path. pure tt;
  read_cloud_config_from_file = λ path. pure path;
  load_xo_config_from_env = fail "XOA_URL is not set";
  new_xo_client = λ config. pure config;
}

abbrev build : Build
build = record { driver_version = "1.2.0"; git_commit = "none"; build_date = "unknown" }

abbrev started : Started String String
started = record {
  driver = named_driver;
  node_metadata = from_kubernetes "kubernetes" "node-1";
  xo_sdk_client = "/etc/xenorchestra/config.yaml";
}

starts : new_driver startup "1.2.0" named_options [] ≡ (ok started, [])
unfolding new_driver load_config load_xo_config_from_file new_driver_with_dependencies check
    default_options string_eq char_eq
starts = refl

file_loads :
    (t : Log)
    → (c : String) × ((load_xo_config_from_file startup named_options.config_file t).0 ≡ ok c)
unfolding load_xo_config_from_file check
file_loads t = (_, refl)

new_driver_of_file_example :
    new_driver (record startup { load_xo_config_from_env = pure "env" }) "1.2.0" named_options []
    ≡ new_driver startup "1.2.0" named_options []
new_driver_of_file_example =
    new_driver_of_file startup "1.2.0" named_options (pure "env") [] file_loads

new_driver-IsStarted_example : IsStarted named_options started
new_driver-IsStarted_example =
    new_driver-IsStarted startup "1.2.0" named_options started [] [] starts

abbrev over_tcp : DriverOptions
over_tcp = record named_options { endpoint = "tcp://0.0.0.0:9000" }

abbrev started_over_tcp : Started String String
started_over_tcp = record started {
  driver = record named_driver { endpoint = "tcp://0.0.0.0:9000" };
}

starts_over_tcp : new_driver startup "1.2.0" over_tcp [] ≡ (ok started_over_tcp, [])
unfolding new_driver load_config load_xo_config_from_file new_driver_with_dependencies check
    default_options string_eq char_eq
starts_over_tcp = refl

main_of_not_unix_example :
    main startup grpc false "xenorchestra-csi" build over_tcp {E = Fatal} process
    ≡ (ok exit_0, record process { servers = none ∷ none ∷ [] })
unfolding char_eq
main_of_not_unix_example =
    main_of_not_unix startup grpc "xenorchestra-csi" build over_tcp started_over_tcp process []
      starts_over_tcp refl

calm :
    (i : ℕ) (q : Process Log (Unit {0}))
    → (serve grpc i named_driver.endpoint
        (some named_driver)
        (some named_driver)
        (some named_driver)
        q).0
      ≢ panic
unfolding serve serve_on check char_eq
calm i q h = cc

main-exit_0_example :
    (main startup grpc false "xenorchestra-csi" build named_options {E = Fatal} process).0
    ≡ ok exit_0
main-exit_0_example =
    main-exit_0 startup grpc "xenorchestra-csi" build named_options started process [] starts calm

abbrev kubernetes_node : KubernetesNode
kubernetes_node = record { name = "node-1"; provider_id = "xenorchestra://1/8" }

abbrev cluster : Cluster Store
cluster = record {
  get_node = λ name. pure kubernetes_node;
  parse_provider_id =
      λ text. if text == "xenorchestra://1/8" then ok (machine, 1) else err "not a provider ID";
  find_vm_by_node = λ found. pure (machine, 1);
}

node_get_info_of_kubernetes_example :
    IsReadable vendor machine 1
      (node_get_info vendor (get_node_metadata_from_kubernetes cluster vendor "node-1") busy).0
unfolding string_eq char_eq
node_get_info_of_kubernetes_example =
    node_get_info_of_kubernetes vendor-IsDocumented cluster "node-1" busy kubernetes_node machine 1
      refl refl (λ h. cc)
