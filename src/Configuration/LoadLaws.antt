-- ===== src/Configuration/LoadLaws.antt =====
-- What pkg/configuration/load.go promises: the Secrets that are indexed and the variables that are set.
use toolchain_common.Base.{
  String, ◌≡◌, ◌≢◌, refl, ◌∙◌, ap, sym, Option, none, some, List, [], ◌∷◌, ok, err, inl, inr,
  string_eq, arith, All, In, if◌then◌else◌,
}
use toolchain_common.Base.Dict.{
  Dict, lookup, insert, insert_all, NodupKeys, insert_all-nil, lookup-insert, lookup-nil,
}
use toolchain_common.Configuration.Get.{Secrets}
use toolchain_common.Configuration.Load.{
  Env, Platform, SecretItem, is_service_account_secret, index_secret, index_secrets, load_secrets,
  get_resource_name, get_watch_namespace, create_operator_env_var_key, set_variables, set_content,
  load_from_config_map_in, load_from_config_map,
}

-- No item has the name.
abbrev pub IsAbsent : String → List SecretItem → Type 0
IsAbsent name items = All (λ item. name ≢ item.name) items

-- A namespace holds one Secret of a name, whose data is a map.
abbrev pub AreSecrets : List SecretItem → Type 0
AreSecrets [] = Unit
AreSecrets (item ∷ items) = (IsAbsent item.name items × NodupKeys item.content) × AreSecrets items

-- What the map holds for an item.
abbrev pub expected : SecretItem → Option (Dict String String)
expected item = if is_service_account_secret item then none else some item.content

lookup-index_secret_other :
    (name : String) (item : SecretItem) (m : Secrets)
    → name ≢ item.name
    → lookup name (index_secret item m) ≡ lookup name m
unfolding index_secret
lookup-index_secret_other name item m differ =
    ground (arith, lookup-insert name item.name (insert_all item.content []) m)

lookup-index_secret :
    (item : SecretItem) (m : Secrets)
    → NodupKeys item.content
    → lookup item.name m ≡ none
    → lookup item.name (index_secret item m) ≡ expected item
unfolding index_secret
lookup-index_secret item m map fresh = ground (
  arith,
  lookup-insert item.name item.name (insert_all item.content []) m,
  insert_all-nil item.content map,
)

index_secrets-IsAbsent :
    (name : String) (items : List SecretItem) (m : Secrets)
    → IsAbsent name items
    → lookup name (index_secrets items m) ≡ lookup name m
unfolding index_secrets
index_secrets-IsAbsent name [] m _ = refl
index_secrets-IsAbsent name (item ∷ items) m (differ, absent) =
    index_secrets-IsAbsent name items (index_secret item m) absent
    ∙ lookup-index_secret_other name item m differ

IsAbsent-In :
    (name : String) (item : SecretItem) (items : List SecretItem)
    → IsAbsent name items
    → In item items
    → item.name ≢ name
IsAbsent-In name item [] _ m = elim m [ ]
IsAbsent-In name item (x ∷ items) (differ, absent) (inl same) =
    λ e. differ (sym (ap (λ i. i.name) (sym same) ∙ e))
IsAbsent-In name item (x ∷ items) (differ, absent) (inr m) = IsAbsent-In name item items absent m

lookup-index_secrets :
    (item : SecretItem) (items : List SecretItem) (m : Secrets)
    → AreSecrets items
    → lookup item.name m ≡ none
    → In item items
    → lookup item.name (index_secrets items m) ≡ expected item
unfolding index_secrets
lookup-index_secrets item [] m _ _ in_items = elim in_items [ ]
lookup-index_secrets item (first ∷ items) m ((absent, map), unique) fresh (inl same) =
    ap (λ i. lookup i.name (index_secrets items (index_secret first m))) same
    ∙ index_secrets-IsAbsent first.name items (index_secret first m) absent
    ∙ lookup-index_secret first m map (ap (λ i. lookup i.name m) (sym same) ∙ fresh)
    ∙ ap expected (sym same)
lookup-index_secrets item (first ∷ items) m ((absent, map), unique) fresh (inr later) =
    lookup-index_secrets item items (index_secret first m) unique
      (lookup-index_secret_other item.name first m (IsAbsent-In first.name item items absent later)
        ∙ fresh)
      later

-- When the Secrets of the namespace can be listed, each of them is in the map under its name with its
-- content, but those of service accounts, which are left out.
pub lookup-load_secrets :
    (p : Platform) (namespace : String) (items : List SecretItem) (item : SecretItem)
    → p.list_secrets namespace ≡ ok items
    → AreSecrets items
    → In item items
    → (elim (load_secrets p namespace) [ err e ↦ none | ok m ↦ some (lookup item.name m) ])
      ≡ some (expected item)
unfolding load_secrets
lookup-load_secrets p namespace items item listed unique in_items =
    rw listed (ap some (lookup-index_secrets item items [] unique (lookup-nil item.name) in_items))

-- The variables for the content, set one by one.
abbrev pub with_variables : Platform → String → Dict String String → Env → Env
with_variables p prefix [] env = env
with_variables p prefix ((key, value) ∷ content) env =
    with_variables p prefix content (insert (create_operator_env_var_key p prefix key) value env)

set_variables_lem :
    (p : Platform) (prefix : String) (content : Dict String String) (env : Env)
    → (set_variables p prefix content env).0 ≡ none
    → (set_variables p prefix content env).1 ≡ with_variables p prefix content env
unfolding set_variables
set_variables_lem p prefix [] env _ = refl
set_variables_lem p prefix ((key, value) ∷ content) env done = ground (
  arith,
  set_variables_lem p prefix content (insert (create_operator_env_var_key p prefix key) value env),
)

-- When the ConfigMap's name and the namespace are set, the ConfigMap can be read and no error comes
-- back, the environment has become the old one with the variable of each entry (its key in upper case
-- behind the prefix) set to the entry's value, in their order.
pub load_from_config_map_lem :
    (p : Platform) (prefix resource_key namespace : String) (content : Dict String String)
    (env : Env)
    → get_resource_name resource_key env ≢ ""
    → get_watch_namespace env ≡ ok namespace
    → p.get_config_map namespace (get_resource_name resource_key env) ≡ ok content
    → (load_from_config_map p prefix resource_key env).0 ≡ none
    → (load_from_config_map p prefix resource_key env).1 ≡ with_variables p prefix content env
unfolding load_from_config_map load_from_config_map_in set_content
load_from_config_map_lem p prefix resource_key namespace content env named watched read done =
    ground (arith, set_variables_lem p prefix content env)
