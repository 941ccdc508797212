-- ===== src/Configuration/Cache.antt =====
-- pkg/configuration/cache.go, over configurations of an unknown type `O`, whose deep copies are the
-- values themselves. Each method that takes the lock is one step on the cache; a nil map is empty.
use toolchain_common.Base.{
  String, Option, none, some, [], Result, ok, err, Error, wrapped, is_not_found, if◌then◌else◌,
}
use toolchain_common.Configuration.Get.{Secrets, copy_of}
use toolchain_common.Configuration.Load.{Env, Platform, get_watch_namespace, load_secrets}

pub record ConfigCache (O : Type 0) : Type 0 where
  pub config_obj : Option O
  pub secrets : Secrets

abbrev pub reset_cache : {O : Type 0} → ConfigCache O
reset_cache = record { config_obj = none; secrets = [] }

-- A configuration or none, its secrets, and the error.
pub record Loaded (O : Type 0) : Type 0 where
  pub config : Option O
  pub secrets : Secrets
  pub error : Option Error

abbrev pub no_config : {O : Type 0} → Option Error → Loaded O
no_config e = record { config = none; secrets = []; error = e }

module _ {O : Type 0} where
  unfoldable pub update_config : O → Secrets → ConfigCache O → ConfigCache O
  update_config config secrets c = record { config_obj = some config; secrets = copy_of secrets }

  unfoldable pub get_cached_config : ConfigCache O → Option O × Secrets
  get_cached_config c = (c.config_obj, copy_of c.secrets)

  -- The end of `LoadLatest`: the set, and the get behind it.
  unfoldable pub cache_loaded : O → Result Secrets → ConfigCache O → Loaded O × ConfigCache O
  unfolding update_config get_cached_config
  cache_loaded config (err e) c = (no_config (some e), c)
  cache_loaded config (ok all_secrets) c =
      let c' = update_config config all_secrets c in
      let (config_copy, secrets_copy) = get_cached_config c' in
      (record { config = config_copy; secrets = secrets_copy; error = none }, c')

  unfoldable pub load_found :
      Platform → String → Result O → ConfigCache O → Loaded O × ConfigCache O
  unfolding cache_loaded
  load_found p namespace (err e) c =
      if is_not_found e then (no_config none, c) else (no_config (some e), c)
  load_found p namespace (ok config) c = cache_loaded config (load_secrets p namespace) c

  unfoldable pub load_in :
      Platform → (String → Result O) → Result String → ConfigCache O → Loaded O × ConfigCache O
  unfolding load_found
  load_in p get_config (err e) c = (no_config (some (wrapped "failed to get watch namespace" e)), c)
  load_in p get_config (ok namespace) c = load_found p namespace (get_config namespace) c

  -- `get_config` gets the resource with the name `config` from a namespace.
  unfoldable pub load_latest :
      Platform → (String → Result O) → Env → ConfigCache O → Loaded O × ConfigCache O
  unfolding load_in
  load_latest p get_config env c = load_in p get_config (get_watch_namespace env) c

  unfoldable pub get_config :
      Platform → (String → Result O) → Env → ConfigCache O → Loaded O × ConfigCache O
  unfolding get_cached_config
  get_config p fetch env c = elim (get_cached_config c).0 [
    | none ↦ load_latest p fetch env c
    | some config ↦
        (record { config = some config; secrets = (get_cached_config c).1; error = none }, c)
  ]
