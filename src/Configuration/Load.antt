-- ===== src/Configuration/Load.antt =====
-- pkg/configuration/load.go. The environment of the process is a map, and the API server a record of
-- functions. The bytes of a Secret and their text are one type.
use Prim.Native.Char.{Char}
use toolchain_common.Base.{
  String, ◌<>◌, Bool, Option, none, some, List, [], ◌∷◌, ◌==◌, string_eq, if◌then◌else◌, Result, ok,
  err, Error, failed, is_not_found, chars, of_chars, is_some,
}
use toolchain_common.Base.Dict.{Dict, lookup, insert, insert_all}
use toolchain_common.Configuration.Get.{Secrets}

abbrev pub Env : Type 0
Env = Dict String String

pub record SecretItem : Type 0 where
  pub name : String
  pub annotations : Dict String String
  pub content : Dict String String

-- `get_secret` and `get_config_map` take a namespace and a name, `set_env_error` is the error that
-- `os.Setenv` returns for a key and a value, and `to_upper` is `strings.ToUpper`.
pub record Platform : Type 0 where
  pub get_secret : String → String → Result (Dict String String)
  pub get_config_map : String → String → Result (Dict String String)
  pub list_secrets : String → Result (List SecretItem)
  pub set_env_error : String → String → Option Error
  pub to_upper : String → String

abbrev pub watch_namespace_env_var : String
watch_namespace_env_var = "WATCH_NAMESPACE"

abbrev pub operator_name_env_var : String
operator_name_env_var = "OPERATOR_NAME"

-- `GetWatchNamespace` and `GetOperatorName` have one body over their variable.
unfoldable pub required_env : String → Env → Result String
required_env key env = elim (lookup key env) [
  | none ↦ err (failed (key <> " must be set"))
  | some value ↦ if value == "" then err (failed (key <> " must not be empty")) else ok value
]

unfoldable pub get_watch_namespace : Env → Result String
unfolding required_env
get_watch_namespace env = required_env watch_namespace_env_var env

unfoldable pub get_operator_name : Env → Result String
unfolding required_env
get_operator_name env = required_env operator_name_env_var env

-- `os.Getenv` gives the empty text for a variable that is not set.
unfoldable pub get_resource_name : String → Env → String
get_resource_name key env = elim (lookup key env) [ none ↦ "" | some name ↦ name ]

-- strings.ReplaceAll with texts of one character.
unfoldable pub replace_char : Char → Char → List Char → List Char
replace_char from to [] = []
replace_char from to (c ∷ s) =
    (if of_chars (c ∷ []) == of_chars (from ∷ []) then to else c) ∷ replace_char from to s

unfoldable pub create_operator_env_var_key : Platform → String → String → String
unfolding replace_char
create_operator_env_var_key p prefix key =
    prefix
    <> ("_" <> p.to_upper (of_chars (replace_char "-" "_" (replace_char "." "_" (chars key)))))

-- The content of the resource: a missing resource is logged and has none.
abbrev pub or_nothing : Result (Dict String String) → Result (Dict String String)
or_nothing (ok content) = ok content
or_nothing (err e) = if is_not_found e then ok [] else err e

-- The map of the Secret's content, and the error beside it.
unfoldable pub load_secret_content : Result (Dict String String) → Dict String String × Option Error
load_secret_content (err e) = ([], some e)
load_secret_content (ok content) = (insert_all content [], none)

unfoldable pub load_from_secret_in :
    Platform → String → Result String → Dict String String × Option Error
unfolding load_secret_content
load_from_secret_in p name (err e) = ([], some e)
load_from_secret_in p name (ok namespace) =
    load_secret_content (or_nothing (p.get_secret namespace name))

unfoldable pub load_from_secret : Platform → String → Env → Dict String String × Option Error
unfolding load_from_secret_in
load_from_secret p resource_key env =
    let secret_name = get_resource_name resource_key env in
    if secret_name == ""
    then ([], none)
    else load_from_secret_in p secret_name (get_watch_namespace env)

-- The loop that sets the variables, up to the first that cannot be set.
unfoldable pub set_variables : Platform → String → Dict String String → Env → Option Error × Env
set_variables p prefix [] env = (none, env)
set_variables p prefix ((key, value) ∷ content) env =
    let config_key = create_operator_env_var_key p prefix key in
    let rest = set_variables p prefix content (insert config_key value env) in
    elim (p.set_env_error config_key value) [ some e ↦ (some e, env) | none ↦ rest ]

unfoldable pub set_content :
    Platform → String → Result (Dict String String) → Env → Option Error × Env
unfolding set_variables
set_content p prefix (err e) env = (some e, env)
set_content p prefix (ok content) env = set_variables p prefix content env

unfoldable pub load_from_config_map_in :
    Platform → String → String → Result String → Env → Option Error × Env
unfolding set_content
load_from_config_map_in p prefix name (err e) env = (some e, env)
load_from_config_map_in p prefix name (ok namespace) env =
    set_content p prefix (or_nothing (p.get_config_map namespace name)) env

unfoldable pub load_from_config_map : Platform → String → String → Env → Option Error × Env
unfolding load_from_config_map_in
load_from_config_map p prefix resource_key env =
    let config_map_name = get_resource_name resource_key env in
    if config_map_name == ""
    then (none, env)
    else load_from_config_map_in p prefix config_map_name (get_watch_namespace env) env

abbrev pub service_account_annotation : String
service_account_annotation = "kubernetes.io/service-account.name"

unfoldable pub is_service_account_secret : SecretItem → Bool
is_service_account_secret secret = is_some (lookup service_account_annotation secret.annotations)

unfoldable pub index_secret : SecretItem → Secrets → Secrets
unfolding is_service_account_secret
index_secret secret all_secrets =
    if is_service_account_secret secret
    then all_secrets
    else insert secret.name (insert_all secret.content []) all_secrets

unfoldable pub index_secrets : List SecretItem → Secrets → Secrets
unfolding index_secret
index_secrets [] all_secrets = all_secrets
index_secrets (secret ∷ items) all_secrets = index_secrets items (index_secret secret all_secrets)

unfoldable pub load_secrets : Platform → String → Result Secrets
unfolding index_secrets
load_secrets p namespace = elim (p.list_secrets namespace) [
  | err e ↦ err e
  | ok items ↦ ok (index_secrets items [])
]
