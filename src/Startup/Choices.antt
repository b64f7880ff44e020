-- ===== src/Startup/Choices.antt =====
-- The choices that the start makes (pkg/xenorchestra-csi/xenorchestra-csi.go, cmd/xenorchestra-csi/main.go).
use xenorchestra_csi_driver.Base.{
  String, Option, none, some, Exec, Result, ok, check, ◌≡◌, ◌≢◌, refl, string_eq, arith, >>=-eq_ok,
  ap, >>=-ap, >>=-same, subst, ok-injective,
}
use xenorchestra_csi_driver.Errors.{ApiError}
use xenorchestra_csi_driver.Csi.{Driver}
use xenorchestra_csi_driver.Options.{
  DriverOptions, NodeMetadataSource, kubernetes, xo_api, other_source, new_driver_with_dependencies,
}
use xenorchestra_csi_driver.Startup.{
  Startup, Started, NodeMetadataGetter, from_kubernetes, from_xo_client, Fatal, require,
  select_getter, load_xo_config_from_file, load_config, new_driver,
}

-- The getter of node metadata that is made for a source.
pub data IsFor {KubeClient XoSdk : Type 0} (name : String) (sdk : XoSdk)
    : NodeMetadataSource → NodeMetadataGetter KubeClient XoSdk → Type 0 where
  for_kubernetes : {k : KubeClient} → IsFor name sdk kubernetes (from_kubernetes k name)
  for_xo_api : {k : KubeClient} → IsFor name sdk xo_api (from_xo_client k sdk name)

pub record IsStarted {KubeClient XoSdk : Type 0} (options : DriverOptions)
    (started : Started KubeClient XoSdk) : Type 0 where
  pub named : options.driver_name ≢ ""
  pub on_node : options.node_name ≢ ""
  pub at_endpoint : options.endpoint ≢ ""
  pub endpoint : started.driver.endpoint ≡ options.endpoint
  pub getter :
      IsFor options.node_name started.xo_sdk_client options.node_metadata_source
        started.node_metadata

select_getter-IsFor :
    {S KubeClient XoSdk : Type 0} (source : NodeMetadataSource) (k : KubeClient) (sdk : XoSdk)
    (name : String) (s : S) (getter : NodeMetadataGetter KubeClient XoSdk)
    → (select_getter source k sdk name s).0 ≡ ok getter
    → IsFor name sdk source getter
select_getter-IsFor xo_api k sdk name s getter h =
    subst (IsFor name sdk xo_api) (ok-injective h) for_xo_api
select_getter-IsFor kubernetes k sdk name s getter h =
    subst (IsFor name sdk kubernetes) (ok-injective h) for_kubernetes
select_getter-IsFor (other_source text) k sdk name s getter h = absurd cc

require-eq_ok :
    {S A : Type 0} (fatal : Fatal) (o : Option A) (s : S) (a : A)
    → (require fatal o s).0 ≡ ok a
    → o ≡ some a
require-eq_ok fatal none s a h = absurd cc
require-eq_ok fatal (some b) s a h = ap some (ok-injective h)

new_driver_with_dependencies-IsStarted :
    {KubeClient XoSdk : Type 0} (version : String) (options : DriverOptions) (driver : Driver)
    (getter : NodeMetadataGetter KubeClient XoSdk) (sdk : XoSdk)
    → new_driver_with_dependencies version options ≡ some driver
    → IsFor options.node_name sdk options.node_metadata_source getter
    → IsStarted options (record { driver = driver; node_metadata = getter; xo_sdk_client = sdk })
unfolding new_driver_with_dependencies
new_driver_with_dependencies-IsStarted version options driver getter sdk made is_for = record {
  named = ground arith;
  on_node = ground arith;
  at_endpoint = ground arith;
  endpoint = ground arith;
  getter = is_for;
}

module _ {S KubeConfig KubeClient XoConfig XoSdk : Type 0}
    (startup : Startup S KubeConfig KubeClient XoConfig XoSdk) where
  load_config_of_file :
      (file : String) (env : Exec S ApiError XoConfig) (t : S) (c : XoConfig)
      → (load_xo_config_from_file startup file t).0 ≡ ok c
      → load_config (record startup { load_xo_config_from_env = env }) file t
        ≡ load_config startup file t
  unfolding load_config check load_xo_config_from_file
  load_config_of_file file env t c h = rw h refl

  -- The environment is not read where the file can be loaded: another environment leads to the same driver,
  -- or the same failure.
  pub new_driver_of_file :
      (version : String) (options : DriverOptions) (env : Exec S ApiError XoConfig) (s : S)
      → ((t : S)
          → (c : XoConfig) × ((load_xo_config_from_file startup options.config_file t).0 ≡ ok c))
      → new_driver (record startup { load_xo_config_from_env = env }) version options s
        ≡ new_driver startup version options s
  unfolding new_driver
  new_driver_of_file version options env s loads = >>=-ap _ _ _ s λ kube_config s.
      >>=-ap _ _ _ s λ kclient s.
        >>=-same _ _ _ s (load_config_of_file options.config_file env s (loads s).0 (loads s).1)

  -- A driver is made only of options with a name, a node and an endpoint. It has that endpoint, and reads the
  -- metadata of that node from the source of the options, which must be one of the two that there are.
  pub new_driver-IsStarted :
      (version : String) (options : DriverOptions) (started : Started KubeClient XoSdk) (s s' : S)
      → new_driver startup version options s ≡ (ok started, s')
      → IsStarted options started
  unfolding new_driver
  new_driver-IsStarted version options started s s' h =
      let (_, _, h1) = >>=-eq_ok _ _ s h in
      let (k, _, h2) = >>=-eq_ok _ _ _ h1 in
      let (_, _, h3) = >>=-eq_ok _ _ _ h2 in
      let (sdk, _, h4) = >>=-eq_ok _ _ _ h3 in
      let (getter, chosen, h5) = >>=-eq_ok _ _ _ h4 in
      let (driver, made, h6) = >>=-eq_ok _ _ _ h5 in
      subst (IsStarted options)
        (ok-injective (ap (λ (p : Result Fatal (Started KubeClient XoSdk) × S). p.0) h6))
        (new_driver_with_dependencies-IsStarted version options driver getter sdk
          (require-eq_ok _ _ _ driver made)
          (select_getter-IsFor options.node_metadata_source k sdk options.node_name _ getter
            chosen))
