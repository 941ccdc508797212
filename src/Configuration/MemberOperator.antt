-- ===== src/Configuration/MemberOperator.antt =====
-- pkg/configuration/memberoperatorconfig/configuration.go. The records are the parts of a
-- MemberOperatorConfigSpec that are read. The cache holds resources `O`; `cast` gives the spec of one
-- that is a MemberOperatorConfig.
use toolchain_common.Base.{
  ℕ, String, Bool, true, false, Option, none, some, [], string_eq, Result, Error,
}
use toolchain_common.Base.Dict.{lookup}
use toolchain_common.Configuration.Get.{Secrets, get_bool, get_int, get_string}
use toolchain_common.Configuration.Load.{Env, Platform}
use toolchain_common.Configuration.Cache.{
  ConfigCache, Loaded, get_config, get_cached_config, load_latest,
}

pub record SecretRef : Type 0 where
  pub ref : Option String
  pub key : Option String

pub record MemberOperatorConfigSpec : Type 0 where
  pub idp : Option String
  pub autoscaler_deploy : Option Bool
  pub buffer_memory : Option String
  pub buffer_cpu : Option String
  pub buffer_replicas : Option ℕ
  pub console_namespace : Option String
  pub console_route_name : Option String
  pub environment : Option String
  pub github_secret : SecretRef
  pub refresh_period : Option String
  pub skip_user_creation : Option Bool
  pub health_check_period : Option String
  pub health_check_timeout : Option String
  pub webhook_deploy : Option Bool
  pub webhook_secret : Option SecretRef

abbrev pub empty_spec : MemberOperatorConfigSpec
empty_spec = record {
  idp = none;
  autoscaler_deploy = none;
  buffer_memory = none;
  buffer_cpu = none;
  buffer_replicas = none;
  console_namespace = none;
  console_route_name = none;
  environment = none;
  github_secret = record { ref = none; key = none };
  refresh_period = none;
  skip_user_creation = none;
  health_check_period = none;
  health_check_timeout = none;
  webhook_deploy = none;
  webhook_secret = none;
}

pub record Configuration : Type 0 where
  pub cfg : MemberOperatorConfigSpec
  pub secrets : Secrets

abbrev pub default_configuration : Configuration
default_configuration = record { cfg = empty_spec; secrets = [] }

abbrev pub of_spec : Option MemberOperatorConfigSpec → Secrets → Configuration
of_spec none secrets = default_configuration
of_spec (some spec) secrets = record { cfg = spec; secrets = secrets }

module _ {O : Type 0} (cast : O → Option MemberOperatorConfigSpec) where
  unfoldable pub new_configuration : Option O → Secrets → Configuration
  new_configuration none secrets = default_configuration
  new_configuration (some config) secrets = of_spec (cast config) secrets

  -- The configuration of what was loaded, and the error.
  unfoldable pub configuration_of : Loaded O → Configuration × Option Error
  unfolding new_configuration
  configuration_of loaded = elim loaded.error [
    | some e ↦ (default_configuration, some e)
    | none ↦ (new_configuration loaded.config loaded.secrets, none)
  ]

  unfoldable pub get_configuration :
      Platform
      → (String → Result O)
      → Env
      → ConfigCache O
      → (Configuration × Option Error) × ConfigCache O
  unfolding configuration_of
  get_configuration p fetch env c =
      let (loaded, c') = get_config p fetch env c in (configuration_of loaded, c')

  unfoldable pub force_load_configuration :
      Platform
      → (String → Result O)
      → Env
      → ConfigCache O
      → (Configuration × Option Error) × ConfigCache O
  unfolding configuration_of
  force_load_configuration p fetch env c =
      let (loaded, c') = load_latest p fetch env c in (configuration_of loaded, c')

  unfoldable pub get_cached_configuration : ConfigCache O → Configuration
  unfolding new_configuration get_cached_config
  get_cached_configuration c = new_configuration (get_cached_config c).0 (get_cached_config c).1

-- `secrets[secret][key]`, where a missing entry is empty.
unfoldable pub secret_value : Secrets → String → String → String
secret_value secrets secret key = elim (lookup secret secrets) [
  | none ↦ ""
  | some content ↦ elim (lookup key content) [ none ↦ "" | some value ↦ value ]
]

-- The three durations: `parse_duration` is `time.ParseDuration`, with none for its error; a default
-- that cannot be parsed is the zero duration.
unfoldable pub parsed_duration : (String → Option ℕ) → Option String → String → ℕ
parsed_duration parse_duration value default = elim (parse_duration (get_string value default)) [
  | some d ↦ d
  | none ↦ elim (parse_duration default) [ some d ↦ d | none ↦ 0 ]
]

module _ (c : Configuration) where
  unfoldable pub idp : String
  idp = get_string c.cfg.idp "rhd"

  unfoldable pub autoscaler_deploy : Bool
  autoscaler_deploy = get_bool c.cfg.autoscaler_deploy true

  unfoldable pub buffer_memory : String
  buffer_memory = get_string c.cfg.buffer_memory "50Mi"

  unfoldable pub buffer_cpu : String
  buffer_cpu = get_string c.cfg.buffer_cpu "50m"

  unfoldable pub buffer_replicas : ℕ
  buffer_replicas = get_int c.cfg.buffer_replicas 2

  unfoldable pub console_namespace : String
  console_namespace = get_string c.cfg.console_namespace "openshift-console"

  unfoldable pub console_route_name : String
  console_route_name = get_string c.cfg.console_route_name "console"

  unfoldable pub environment : String
  environment = get_string c.cfg.environment "prod"

  unfoldable pub skip_user_creation : Bool
  skip_user_creation = get_bool c.cfg.skip_user_creation false

  unfoldable pub access_token_key : String
  unfolding secret_value
  access_token_key =
      secret_value c.secrets (get_string c.cfg.github_secret.ref "")
        (get_string c.cfg.github_secret.key "")

  unfoldable pub webhook_deploy : Bool
  webhook_deploy = get_bool c.cfg.webhook_deploy true

  unfoldable pub vm_ssh_key : String
  unfolding secret_value
  vm_ssh_key = elim c.cfg.webhook_secret [
    | none ↦ ""
    | some secret ↦ secret_value c.secrets (get_string secret.ref "") (get_string secret.key "")
  ]

  unfoldable pub refresh_period : (String → Option ℕ) → ℕ
  unfolding parsed_duration
  refresh_period parse_duration = parsed_duration parse_duration c.cfg.refresh_period "5s"

  unfoldable pub health_check_period : (String → Option ℕ) → ℕ
  unfolding parsed_duration
  health_check_period parse_duration =
      parsed_duration parse_duration c.cfg.health_check_period "10s"

  unfoldable pub health_check_timeout : (String → Option ℕ) → ℕ
  unfolding parsed_duration
  health_check_timeout parse_duration =
      parsed_duration parse_duration c.cfg.health_check_timeout "3s"
