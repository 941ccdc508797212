-- ===== src/Configuration/Tests.antt =====
-- Runs of pkg/configuration, and its theorems at concrete data.
use toolchain_common.Base.{
  String, ◌≡◌, refl, Option, none, some, [], ◌∷◌, Result, ok, err, failed, not_found, ◌==◌,
  string_eq, ne_of_==, ℕ, if◌then◌else◌, inl,
}
use toolchain_common.Base.Dict.{lookup, insert, insert_all}
use toolchain_common.Configuration.Get.{Secrets, copy_of, get_duration}
use toolchain_common.Configuration.Load.{
  Env, Platform, SecretItem, load_secrets, get_resource_name, get_watch_namespace,
  load_from_config_map, create_operator_env_var_key, load_from_secret,
}
use toolchain_common.Configuration.Cache.{reset_cache, load_latest, get_config}
use toolchain_common.Configuration.MemberOperator.{
  MemberOperatorConfigSpec, empty_spec, default_configuration, force_load_configuration,
  access_token_key, idp,
}
use toolchain_common.Configuration.MemberOperatorLaws.{IsLoaded, force_load_configuration-IsLoaded}
use toolchain_common.Configuration.LoadLaws.{
  expected, lookup-load_secrets, with_variables, load_from_config_map_lem,
}
use toolchain_common.Configuration.CacheLaws.{copy_of_lem, IsCached, get_config-load_latest}

abbrev secrets : Secrets
secrets = ("github", ("token", "t1") ∷ ("user", "u") ∷ []) ∷ ("mailgun", ("key", "k") ∷ []) ∷ []

abbrev github : SecretItem
github = record { name = "github"; annotations = []; content = ("token", "t1") ∷ [] }

abbrev account : SecretItem
account = record {
  name = "builder";
  annotations = ("kubernetes.io/service-account.name", "builder") ∷ [];
  content = ("token", "t2") ∷ [];
}

abbrev platform : Platform
platform = record {
  get_secret = λ namespace name. err (not_found name);
  get_config_map = λ namespace name. ok (("a.b-c", "1") ∷ ("d", "2") ∷ []);
  list_secrets = λ namespace. ok (account ∷ github ∷ []);
  set_env_error = λ key value. none;
  to_upper = λ s. s;
}

abbrev env : Env
env = ("WATCH_NAMESPACE", "member") ∷ ("CONFIG", "settings") ∷ []

abbrev seven : String → Result ℕ
seven namespace = ok 7

copy_of_example : copy_of secrets ≡ secrets
unfolding lookup string_eq
copy_of_example = copy_of_lem secrets (refl, (refl, tt)) ((refl, (refl, tt)), ((refl, tt), tt))

get_config-load_latest_example : IsCached (load_latest platform seven env reset_cache) reset_cache (
    get_config platform
      (λ namespace. err (failed "down"))
      []
      (load_latest platform seven env reset_cache).1)
get_config-load_latest_example =
    get_config-load_latest platform platform seven (λ namespace. err (failed "down")) env []
      reset_cache

lookup-load_secrets_example :
    (elim (load_secrets platform "member") [ err e ↦ none | ok m ↦ some (lookup "builder" m) ])
    ≡ some (expected account)
unfolding lookup string_eq
lookup-load_secrets_example =
    lookup-load_secrets platform "member" (account ∷ github ∷ []) account refl
      (((ne_of_== "builder" "github" refl, tt), (refl, tt)), ((tt, (refl, tt)), tt)) (inl refl)

load_from_config_map_example :
    (load_from_config_map platform "MEMBER" "CONFIG" env).1
    ≡ with_variables platform "MEMBER" (("a.b-c", "1") ∷ ("d", "2") ∷ []) env
unfolding string_eq get_resource_name lookup get_watch_namespace load_from_config_map
load_from_config_map_example =
    load_from_config_map_lem platform "MEMBER" "CONFIG" "member" (("a.b-c", "1") ∷ ("d", "2") ∷ [])
      env (ne_of_== (get_resource_name "CONFIG" env) "" refl) refl refl refl

-- The second load fails and leaves what the first has cached.
cached_after_failure :
    (load_latest platform
      (λ namespace. err (failed "down"))
      env
      (load_latest platform seven env reset_cache).1).1.config_obj
    ≡ some 7
unfolding load_latest get_watch_namespace lookup string_eq load_secrets
cached_after_failure = refl

variables_of_config_map :
    lookup "MEMBER_a_b_c" (load_from_config_map platform "MEMBER" "CONFIG" env).1 ≡ some "1"
unfolding lookup load_from_config_map string_eq get_resource_name get_watch_namespace insert
    create_operator_env_var_key
variables_of_config_map = refl

missing_secret : load_from_secret platform "CONFIG" env ≡ ([], none)
unfolding load_from_secret string_eq get_resource_name lookup get_watch_namespace insert_all
missing_secret = refl

abbrev parse_duration : String → Option ℕ
parse_duration text = if text == "5s" then some 5 else none

unparsed_duration : get_duration parse_duration none 10 ≡ 10
unfolding get_duration string_eq
unparsed_duration = refl

abbrev spec : MemberOperatorConfigSpec
spec = record empty_spec { github_secret = record { ref = some "github"; key = some "token" } }

abbrev fetch_spec : String → Result MemberOperatorConfigSpec
fetch_spec namespace = ok spec

abbrev cast : MemberOperatorConfigSpec → Option MemberOperatorConfigSpec
cast resource = some resource

force_load_configuration-IsLoaded_example :
    IsLoaded cast platform fetch_spec
      (get_watch_namespace env)
      reset_cache
      (force_load_configuration cast platform fetch_spec env reset_cache)
force_load_configuration-IsLoaded_example =
    force_load_configuration-IsLoaded cast platform fetch_spec env reset_cache

token :
    access_token_key (force_load_configuration cast platform fetch_spec env reset_cache).0.0 ≡ "t1"
unfolding access_token_key lookup force_load_configuration load_latest get_watch_namespace string_eq
    load_secrets copy_of insert insert_all
token = refl

default_idp : idp default_configuration ≡ "rhd"
unfolding idp
default_idp = refl
