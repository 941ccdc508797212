-- ===== src/Cluster/Tests.antt =====
-- Runs of pkg/cluster, and its theorems at concrete data: REST configurations are texts, clients are
-- numbers.
use toolchain_common.Base.{
  ℕ, String, ◌<>◌, ◌≡◌, ◌≢◌, ◌↔◌, refl, Bool, true, none, some, List, [], ◌∷◌, ◌==◌, string_eq,
  if◌then◌else◌, Result, ok, err, failed, not_found, In, inl, ne_of_==,
}
use toolchain_common.Base.Dict.{Dict, lookup, insert, values}
use toolchain_common.Api.{kubernetes_names}
use toolchain_common.Condition.{is_true}
use toolchain_common.Condition.Tests.{conditions, conditions-NodupTypes}
use toolchain_common.Cluster.Cache.{
  ClusterConfig, CachedToolchainCluster, Clusters, Order, is_ready, refreshed,
  get_cached_toolchain_cluster, get_cached_toolchain_clusters, get_member_clusters,
  get_host_cluster,
}
use toolchain_common.Cluster.Config.{ToolchainCluster, Kube, new_cluster_config, or_empty}
use toolchain_common.Cluster.Service.{
  ToolchainClusterService, cached_cluster, add_or_update_toolchain_cluster, refresh_cache,
}
use toolchain_common.Cluster.CacheLaws.{
  is_ready-eq-is_true, get_cached_toolchain_cluster_lem, VisitsAll, get_member_clusters_lem,
  HostFound, get_host_cluster_lem,
}
use toolchain_common.Cluster.ServiceLaws.{
  new_cluster_config_lem, error_of, lookup-add_or_update, add_reuses_client,
}
use toolchain_common.Cluster.Invariant.{IsValid, add, delete, refresh, run, run-IsValid}
use toolchain_common.Cluster.RefreshLaws.{
  NodupNames, lookup-refresh_cache, lookup-refresh_cache_unlisted,
}

abbrev pub secrets : String → String → Result (Dict String String)
secrets namespace name =
    if name == "secret" then ok (("kubeconfig", "cfg") ∷ []) else err (not_found name)

abbrev pub kube : Kube String String
kube = record {
  get_secret = secrets;
  load = λ text. if text == "" then err (failed "no configuration") else ok text;
  client_config = λ cfg. ok ("https://" <> cfg);
  config_namespace = λ cfg. ok "operator";
  host = λ rest. rest;
  set_timeout = λ t rest. rest;
}

abbrev pub member : String → String → ToolchainCluster
member name secret = record {
  namespace = "host";
  name = name;
  labels = ("ownerClusterName", "owner") ∷ [];
  secret_ref_name = secret;
  conditions = conditions;
}

abbrev pub items : List ToolchainCluster
items = member "m1" "secret" ∷ member "m2" "gone" ∷ []

abbrev pub service : ToolchainClusterService String ℕ String
service = record {
  kube = kube;
  list_clusters = λ namespace. ok items;
  namespace = "host";
  timeout = 5;
  new_client = λ rest. ok 7;
  scheme_error = none;
}

abbrev pub config : ClusterConfig String
config = record {
  rest_config = "https://cfg";
  name = "m1";
  api_endpoint = "https://cfg";
  operator_namespace = "operator";
  owner_cluster_name = "owner";
  labels = ("ownerClusterName", "owner") ∷ [];
}

abbrev pub cached : ℕ → CachedToolchainCluster String ℕ
cached client = record { config = config; client = some client; cluster_status = conditions }

-- The first item is added, the second, without its Secret, is skipped.
refresh_run : refresh_cache service [] ≡ ("m1", cached 7) ∷ []
unfolding refresh_cache add_or_update_toolchain_cluster cached_cluster new_cluster_config lookup
    insert string_eq toolchain_common.Cluster.Service.add_toolchain_cluster
refresh_run = refl

is_ready-eq-is_true_example :
    is_ready kubernetes_names conditions ≡ is_true kubernetes_names conditions "Ready"
is_ready-eq-is_true_example = is_ready-eq-is_true kubernetes_names conditions conditions-NodupTypes

abbrev one : Clusters String ℕ
one = ("m1", cached 3) ∷ []

get_cached_toolchain_cluster_example :
    let (found, clusters') = get_cached_toolchain_cluster (some (λ c. one)) "m1" true [] in
    (found ≡ lookup "m1" clusters') × (clusters' ≡ one)
unfolding lookup refreshed
get_cached_toolchain_cluster_example =
    get_cached_toolchain_cluster_lem (some (λ c. one)) "m1" true []

abbrev order : Order String ℕ
order l = l

order-VisitsAll : VisitsAll order
order-VisitsAll c l = (λ h. h, λ h. h)

get_member_clusters_example :
    let (found, clusters') = get_member_clusters order (some (λ c. one)) [] [] in
    (In (cached 3) found ↔ (In (cached 3) (values clusters') × (◌≡◌ {A = Bool} true true)))
    × (clusters' ≡ one)
unfolding get_cached_toolchain_clusters refreshed values
get_member_clusters_example =
    get_member_clusters_lem order (some (λ c. one)) [] [] (cached 3) order-VisitsAll

get_host_cluster_example :
    let (found, clusters') = get_host_cluster order (some (λ c. one)) [] in
    HostFound found clusters' × (clusters' ≡ one)
unfolding get_cached_toolchain_clusters refreshed values
get_host_cluster_example = get_host_cluster_lem order (some (λ c. one)) [] order-VisitsAll

loaded : new_cluster_config kube (member "m1" "secret") 5 ≡ ok config
unfolding new_cluster_config lookup string_eq
loaded = refl

new_cluster_config_example :
    ((member "m1" "secret").secret_ref_name ≢ "")
    × (config.name ≡ "m1")
    × (config.labels ≡ ("ownerClusterName", "owner") ∷ [])
    × (config.api_endpoint ≡ config.rest_config)
    × (config.owner_cluster_name ≡ or_empty (lookup "ownerClusterName" config.labels))
new_cluster_config_example = new_cluster_config_lem kube (member "m1" "secret") 5 config loaded

lookup-add_or_update_example :
    let (e, clusters') = add_or_update_toolchain_cluster service (member "m2" "gone") one in
    (e ≡ error_of service (cached_cluster service (member "m2" "gone") one))
    × (lookup "m1" clusters' ≡ some (cached 3))
unfolding lookup string_eq
lookup-add_or_update_example = lookup-add_or_update service (member "m2" "gone") one "m1"

add_reuses_client_example :
    lookup "m1" (add_or_update_toolchain_cluster service (member "m1" "secret") one).1
    ≡ some (cached 3)
unfolding lookup string_eq
add_reuses_client_example =
    add_reuses_client service (member "m1" "secret") one (cached 3) 3 config refl refl loaded refl
      (ne_of_== "operator" "" refl)

nothing-IsValid : IsValid {R = String} {C = ℕ} []
unfolding lookup
nothing-IsValid = record { nodup = tt; usable = λ name c h. cc }

run-IsValid_example :
    IsValid (run service [] (refresh ∷ add (member "m3" "secret") ∷ delete "m1" ∷ []))
run-IsValid_example =
    run-IsValid service (refresh ∷ add (member "m3" "secret") ∷ delete "m1" ∷ []) [] nothing-IsValid

items-NodupNames : NodupNames items
unfolding string_eq
items-NodupNames = ((ne_of_== "m1" "m2" refl, tt), (tt, tt))

lookup-refresh_cache_example : lookup "m1" (refresh_cache service one) ≡ some (cached 3)
unfolding cached_cluster new_cluster_config lookup string_eq
lookup-refresh_cache_example =
    lookup-refresh_cache service one items (member "m1" "secret") refl items-NodupNames (inl refl)

lookup-refresh_cache_unlisted_example :
    lookup "old" (refresh_cache service (("old", cached 3) ∷ [])) ≡ some (cached 3)
unfolding lookup string_eq
lookup-refresh_cache_unlisted_example =
    lookup-refresh_cache_unlisted service (("old", cached 3) ∷ []) (ok items) "old" refl
      (ne_of_== "old" "m1" refl, (ne_of_== "old" "m2" refl, tt))
