-- ===== src/Configuration/MemberOperatorLaws.antt =====
-- The member operator reads the configuration that was loaded.
use toolchain_common.Base.{
  String, ◌≡◌, refl, Option, none, some, Result, ok, err, Error, wrapped, is_not_found, ◌⊎◌, arith,
  true, false,
}
use toolchain_common.Configuration.Get.{Secrets, copy_of}
use toolchain_common.Configuration.Load.{Env, Platform, get_watch_namespace, load_secrets}
use toolchain_common.Configuration.Cache.{
  ConfigCache, cache_loaded, update_config, get_cached_config, load_found, load_in, load_latest,
}
use toolchain_common.Configuration.MemberOperator.{
  MemberOperatorConfigSpec, Configuration, default_configuration, new_configuration,
  configuration_of, force_load_configuration, get_cached_configuration,
}

module _ {O : Type 0} (cast : O → Option MemberOperatorConfigSpec) where
  -- The configuration, the error, and the cache.
  abbrev pub Forced : Type 0
  Forced = (Configuration × Option Error) × ConfigCache O

  -- The defaults with an error or none, and the same cache.
  abbrev pub defaults : Option Error → ConfigCache O → Forced
  defaults e c = ((default_configuration, e), c)

  -- The resource and the secrets are cached, and the configuration is the one that is cached then.
  abbrev pub Caches : O → Secrets → Forced → Type 0
  Caches config all_secrets r =
      (r.1 ≡ record { config_obj = some config; secrets = copy_of all_secrets })
      × (r.0 ≡ (get_cached_configuration cast r.1, none))

  abbrev pub AfterSecrets : O → Result Secrets → ConfigCache O → Forced → Type 0
  AfterSecrets config (err e) c r = r ≡ defaults (some e) c
  AfterSecrets config (ok all_secrets) c r = Caches config all_secrets r

  -- A resource that is not there gives the defaults with no error.
  abbrev pub AfterFetch : Platform → String → Result O → ConfigCache O → Forced → Type 0
  AfterFetch p namespace (err e) c r =
      ((is_not_found e ≡ true) × (r ≡ defaults none c))
      ⊎ ((is_not_found e ≡ false) × (r ≡ defaults (some e) c))
  AfterFetch p namespace (ok config) c r = AfterSecrets config (load_secrets p namespace) c r

  -- What a forced load does, by the namespace, the resource there, and the secrets there.
  abbrev pub IsLoaded :
      Platform → (String → Result O) → Result String → ConfigCache O → Forced → Type 0
  IsLoaded p fetch (err e) c r = r ≡ defaults (some (wrapped "failed to get watch namespace" e)) c
  IsLoaded p fetch (ok namespace) c r = AfterFetch p namespace (fetch namespace) c r

  after_secrets :
      (config : O) (all_secrets : Result Secrets) (c : ConfigCache O)
      → AfterSecrets config all_secrets c (
        configuration_of cast (cache_loaded config all_secrets c).0,
        (cache_loaded config all_secrets c).1,
      )
  unfolding configuration_of cache_loaded update_config get_cached_config get_cached_configuration
  after_secrets config (err e) c = refl
  after_secrets config (ok all_secrets) c = (refl, refl)

  after_fetch :
      (p : Platform) (namespace : String) (found : Result O) (c : ConfigCache O)
      → AfterFetch p namespace found c (
        configuration_of cast (load_found p namespace found c).0,
        (load_found p namespace found c).1,
      )
  unfolding configuration_of new_configuration load_found
  after_fetch p namespace (err e) c = ground arith
  after_fetch p namespace (ok config) c = after_secrets config (load_secrets p namespace) c

  -- A forced load reads the namespace, the resource and the secrets, whatever the cache holds. If the
  -- namespace is not set, the resource cannot be read, or the secrets cannot, it gives the defaults with
  -- the error and leaves the cache; if there is no resource, the defaults with no error, and leaves the
  -- cache; else it caches the resource with a copy of the secrets, and gives no error and the configuration
  -- that the cache gives from then on.
  pub force_load_configuration-IsLoaded :
      (p : Platform) (fetch : String → Result O) (env : Env) (c : ConfigCache O)
      → IsLoaded p fetch (get_watch_namespace env) c (force_load_configuration cast p fetch env c)
  unfolding force_load_configuration load_latest
  force_load_configuration-IsLoaded p fetch env c = by_namespace (get_watch_namespace env)
    where
      by_namespace :
          (namespace : Result String)
          → IsLoaded p fetch namespace c (
            configuration_of cast (load_in p fetch namespace c).0,
            (load_in p fetch namespace c).1,
          )
      by_namespace (err e) = unfold configuration_of in unfold load_in in refl
      by_namespace (ok namespace) = unfold load_in in after_fetch p namespace (fetch namespace) c
