-- ===== src/Configuration/CacheLaws.antt =====
-- What pkg/configuration/cache.go promises: copies are equal, and what was loaded is what is cached.
use toolchain_common.Base.{
  String, ◌≡◌, refl, ◌∙◌, ap, sym, none, [], ◌∷◌, Result, ok, err, ◌⊎◌, inl, inr, string_eq, All,
  Bool, true, false, some, is_not_found, if◌then◌else◌,
}
use toolchain_common.Base.Dict.{insert, insert_all, NodupKeys, insert_all-nil}
use toolchain_common.Configuration.Get.{Secrets, copy_loop, copy_of}
use toolchain_common.Configuration.Load.{Env, Platform, get_watch_namespace, load_secrets}
use toolchain_common.Configuration.Cache.{
  ConfigCache, Loaded, no_config, update_config, get_cached_config, cache_loaded, load_found,
  load_in, load_latest, get_config,
}

-- Every inner map holds a key once.
abbrev pub AreMaps : Secrets → Type 0
AreMaps secrets = All (λ entry. NodupKeys entry.1) secrets

copy_loop_lem :
    (original target : Secrets)
    → AreMaps original
    → copy_loop original target ≡ insert_all original target
unfolding copy_loop insert_all
copy_loop_lem [] target _ = refl
copy_loop_lem ((key, value) ∷ original) target (map, maps) =
    ap (λ copy. copy_loop original (insert key copy target)) (insert_all-nil value map)
    ∙ copy_loop_lem original (insert key value target) maps

-- For a map of maps, each with a key at most once, the deep copy is equal to the original.
pub copy_of_lem :
    (original : Secrets) → NodupKeys original → AreMaps original → copy_of original ≡ original
unfolding copy_of
copy_of_lem original map maps = copy_loop_lem original [] maps ∙ insert_all-nil original map

module _ {O : Type 0} where
  -- A load gave no configuration and left the cache, or it cached what it found.
  abbrev pub LoadCases : (Loaded O × ConfigCache O) → ConfigCache O → Type 0
  LoadCases r c =
      ((r.0.config ≡ none) × (r.1 ≡ c))
      ⊎ ((config : O) × (all_secrets : Secrets) × (r ≡ cache_loaded config (ok all_secrets) c))

  cache_loaded_cases :
      (config : O) (all_secrets : Result Secrets) (c : ConfigCache O)
      → LoadCases (cache_loaded config all_secrets c) c
  unfolding cache_loaded
  cache_loaded_cases config (err e) c = inl (refl, refl)
  cache_loaded_cases config (ok all_secrets) c = inr (config, all_secrets, refl)

  load_found_cases :
      (p : Platform) (namespace : String) (found : Result O) (c : ConfigCache O)
      → LoadCases (load_found p namespace found c) c
  unfolding load_found
  load_found_cases p namespace (err e) c = by_test (is_not_found e)
    where
      by_test :
          (b : Bool) → LoadCases (if b then (no_config none, c) else (no_config (some e), c)) c
      by_test true = inl (refl, refl)
      by_test false = inl (refl, refl)
  load_found_cases p namespace (ok config) c =
      cache_loaded_cases config (load_secrets p namespace) c

  load_in_cases :
      (p : Platform) (fetch : String → Result O) (namespace : Result String) (c : ConfigCache O)
      → LoadCases (load_in p fetch namespace c) c
  unfolding load_in
  load_in_cases p fetch (err e) c = inl (refl, refl)
  load_in_cases p fetch (ok namespace) c = load_found_cases p namespace (fetch namespace) c

  pub load_latest_cases :
      (p : Platform) (fetch : String → Result O) (env : Env) (c : ConfigCache O)
      → LoadCases (load_latest p fetch env c) c
  unfolding load_latest
  load_latest_cases p fetch env c = load_in_cases p fetch (get_watch_namespace env) c

  get_config-cache_loaded :
      (p : Platform) (fetch : String → Result O) (env : Env) (config : O) (all_secrets : Secrets)
      (c : ConfigCache O)
      → get_config p fetch env (cache_loaded config (ok all_secrets) c).1
        ≡ cache_loaded config (ok all_secrets) c
  unfolding cache_loaded get_config update_config get_cached_config
  get_config-cache_loaded p fetch env config all_secrets c = refl

  -- No configuration and the same cache, or what every later get returns.
  abbrev pub IsCached :
      (Loaded O × ConfigCache O) → ConfigCache O → Loaded O × ConfigCache O → Type 0
  IsCached r c later = ((r.0.config ≡ none) × (r.1 ≡ c)) ⊎ (later ≡ r)

  LoadCases-IsCached :
      (p : Platform) (fetch : String → Result O) (env : Env) (r : Loaded O × ConfigCache O)
      (c : ConfigCache O)
      → LoadCases r c
      → IsCached r c (get_config p fetch env r.1)
  LoadCases-IsCached p fetch env r c (inl none_found) = inl none_found
  LoadCases-IsCached p fetch env r c (inr (config, all_secrets, same)) = inr (
      ap (λ x. get_config p fetch env x.1) same
      ∙ get_config-cache_loaded p fetch env config all_secrets c
      ∙ sym same)

  -- A load either gives no configuration and leaves the cache as it was, or a get from the cache after
  -- it gives what the load gave and leaves the cache, whatever the environment and the cluster hold by
  -- then.
  pub get_config-load_latest :
      (p later_p : Platform) (fetch later_fetch : String → Result O) (env later_env : Env)
      (c : ConfigCache O)
      → IsCached
          (load_latest p fetch env c)
          c
          (get_config later_p later_fetch later_env (load_latest p fetch env c).1)
  get_config-load_latest p later_p fetch later_fetch env later_env c =
      LoadCases-IsCached later_p later_fetch later_env (load_latest p fetch env c) c
        (load_latest_cases p fetch env c)
