-- ===== src/Startup.antt =====
-- The start of the program: NewDriver (pkg/xenorchestra-csi/xenorchestra-csi.go),
-- pkg/xenorchestra-csi/config.go and version.go, and cmd/xenorchestra-csi/main.go. The Kubernetes client
-- and xenorchestra-k8s-common are parameters.
pub mod Choices
pub mod Ending
use xenorchestra_csi_driver.Base.{
  String, Bool, Option, none, some, Exec, pure, fail, check, map_err, ◌>>=◌, ◌<>◌, if◌then◌else◌,
}
use xenorchestra_csi_driver.Errors.{Error, ApiError, api, message}
use xenorchestra_csi_driver.Csi.{Driver}
use xenorchestra_csi_driver.Options.{
  DriverOptions, NodeMetadataSource, kubernetes, xo_api, other_source, new_driver_with_dependencies,
}
use xenorchestra_csi_driver.Mounter.{HostError, StatError, not_exist, other_error}
use xenorchestra_csi_driver.Server.{Grpc, Process, on_world, run}

-- The variables of version.go, which a build sets.
pub record Build : Type 0 where
  pub driver_version : String
  pub git_commit : String
  pub build_date : String

unfoldable pub get_version_info : Build → String
get_version_info build =
    "Version: " <> build.driver_version <> ", GitCommit: " <> build.git_commit <> ", BuildDate: "
    <> build.build_date

pub record Startup (S KubeConfig KubeClient XoConfig XoSdk : Type 0) : Type 0 where
  -- `rest.InClusterConfig` and `kube.NewForConfig`
  pub in_cluster_config : Exec S HostError KubeConfig
  pub new_for_config : KubeConfig → Exec S HostError KubeClient
  -- `os.Stat`
  pub stat : String → Exec S StatError (Unit {0})
  pub read_cloud_config_from_file : String → Exec S ApiError XoConfig
  pub load_xo_config_from_env : Exec S ApiError XoConfig
  pub new_xo_client : XoConfig → Exec S ApiError XoSdk

-- The getters, with what they were made from.
pub data NodeMetadataGetter (KubeClient XoSdk : Type 0) : Type 0 where
  from_kubernetes : KubeClient → String → NodeMetadataGetter KubeClient XoSdk
  from_xo_client : KubeClient → XoSdk → String → NodeMetadataGetter KubeClient XoSdk

-- The driver with what it was given to work with.
pub record Started (KubeClient XoSdk : Type 0) : Type 0 where
  pub driver : Driver
  pub node_metadata : NodeMetadataGetter KubeClient XoSdk
  pub xo_sdk_client : XoSdk

-- Where `klog.Fatalf` ends the process.
pub data Fatal : Type 0 where
  no_cluster_config no_kubernetes_client no_xo_config no_xo_client : Fatal
  unknown_source incomplete_options : Fatal

abbrev pub require : {S A : Type 0} → Fatal → Option A → Exec S Fatal A
require fatal none = fail fatal
require fatal (some a) = pure a

abbrev pub select_getter :
    {S KubeClient XoSdk : Type 0}
    → NodeMetadataSource
    → KubeClient
    → XoSdk
    → String
    → Exec S Fatal (NodeMetadataGetter KubeClient XoSdk)
select_getter xo_api kclient sdk node_name = pure (from_xo_client kclient sdk node_name)
select_getter kubernetes kclient sdk node_name = pure (from_kubernetes kclient node_name)
select_getter (other_source text) kclient sdk node_name = fail unknown_source

module _ {S KubeConfig KubeClient XoConfig XoSdk : Type 0}
    (startup : Startup S KubeConfig KubeClient XoConfig XoSdk) where
  -- `os.IsNotExist(err)`: any other answer of `os.Stat` leads on to the reading.
  abbrev pub read_unless_missing : String → StatError → Exec S Error XoConfig
  read_unless_missing config_file not_exist = fail message
  read_unless_missing config_file other_error =
      map_err api (startup.read_cloud_config_from_file config_file)

  unfoldable pub load_xo_config_from_file : String → Exec S Error XoConfig
  load_xo_config_from_file config_file =
      check (startup.stat config_file) (read_unless_missing config_file)
        (λ _. map_err api (startup.read_cloud_config_from_file config_file))

  -- The file, or else the environment.
  unfoldable pub load_config : String → Exec S Fatal XoConfig
  unfolding load_xo_config_from_file
  load_config config_file =
      check (load_xo_config_from_file config_file)
        (λ _. map_err (λ _. no_xo_config) startup.load_xo_config_from_env) pure

  unfoldable pub new_driver : String → DriverOptions → Exec S Fatal (Started KubeClient XoSdk)
  unfolding load_config
  new_driver driver_version options = do
    kube_config ← map_err (λ _. no_cluster_config) startup.in_cluster_config
    kclient ← map_err (λ _. no_kubernetes_client) (startup.new_for_config kube_config)
    xo_config ← load_config options.config_file
    sdk ← map_err (λ _. no_xo_client) (startup.new_xo_client xo_config)
    getter ← select_getter options.node_metadata_source kclient sdk options.node_name
    driver ← require incomplete_options (new_driver_with_dependencies driver_version options)
    pure (record { driver = driver; node_metadata = getter; xo_sdk_client = sdk })

-- How the process ends: the version printed and status 0, `os.Exit(0)`, or a status of failure.
pub data Exit : Type 0 where
  printed : String → Exit
  exit_0 exit_failure : Exit

module _ {S KubeConfig KubeClient XoConfig XoSdk Server Listener : Type 0}
    (startup : Startup S KubeConfig KubeClient XoConfig XoSdk) (grpc : Grpc S Server Listener) where
  -- After the flags were parsed; `base_name` is the name that the program was called by. The
  -- driver that NewDriver returns is never nil.
  unfoldable pub main :
      Bool → String → Build → DriverOptions → {E : Type 0} → Exec (Process S Server) E Exit
  unfolding get_version_info new_driver
  main show_version base_name build options =
      if show_version
      then pure (printed (base_name <> " - " <> get_version_info build <> "\n"))
      else check (on_world (new_driver startup build.driver_version options))
          (λ _. pure exit_failure)
          (λ started.
            check (run grpc {E = Fatal} started.driver) (λ _. pure exit_failure) (λ _. pure exit_0))
