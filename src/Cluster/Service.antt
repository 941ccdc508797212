-- ===== src/Cluster/Service.antt =====
-- ToolchainClusterService of pkg/cluster/service.go. A method returns its error, `none` for nil, and
-- the map of the cache. Logging has no effect on either.
use mathlib.Core.Option
use toolchain_common.Base.{
  ℕ, String, false, not, Option, none, some, List, [], ◌∷◌, Eq, ◌==◌, ◌<>◌, string_eq,
  if◌then◌else◌, Result, ok, err, Error, failed, wrapped,
}
use toolchain_common.Cluster.Cache.{
  ClusterConfig, CachedToolchainCluster, Clusters, add_cached_toolchain_cluster,
  delete_cached_toolchain_cluster, get_cached_toolchain_cluster,
}
use toolchain_common.Cluster.Config.{ToolchainCluster, Kube, new_cluster_config, wrap}

-- The fields of the service that matter. `new_client` is the service's own function if it has one,
-- and `client.New` otherwise; `scheme_error` is the error of `apis.AddToScheme`.
pub record ToolchainClusterService (R C K : Type 0) : Type 0 where
  pub kube : Kube R K
  pub list_clusters : String → Result (List ToolchainCluster)
  pub namespace : String
  pub timeout : ℕ
  pub new_client : R → Result C
  pub scheme_error : Option Error

abbrev pub label_cluster_role_prefix : String
label_cluster_role_prefix = "cluster-role"

-- The prefix of the labels is a constant of the API module.
unfoldable pub role_label : String → String → String
role_label label_key_prefix role = label_cluster_role_prefix <> ("." <> (label_key_prefix <> role))

module _ {R C K : Type 0} ⦃eq : Eq R⦄ (s : ToolchainClusterService R C K) where
  unfoldable pub create_client : R → Result C
  create_client rest_config = elim s.scheme_error [
    | some e ↦ err e
    | none ↦ wrap "cannot create ToolchainCluster client" (s.new_client rest_config)
  ]

  -- The client of the cached cluster if that has one and its REST configuration is the same.
  unfoldable pub reusable : Option (CachedToolchainCluster R C) → R → Option C
  reusable none rest_config = none
  reusable (some cached) rest_config =
      if not (rest_config == cached.rest_config) then none else cached.client

  unfoldable pub client_for : Option C → R → Result C
  unfolding create_client
  client_for (some client) rest_config = ok client
  client_for none rest_config = create_client rest_config

  -- The end of the function, with the client.
  unfoldable pub connected_cluster :
      ToolchainCluster → ClusterConfig R → Result C → Result (CachedToolchainCluster R C)
  connected_cluster toolchain_cluster config (err e) = err e
  connected_cluster toolchain_cluster config (ok client) =
      if config.operator_namespace == ""
      then err (failed "the operator namespace is not set for the ToolchainCluster CR")
      else ok (record {
        config = config;
        client = some client;
        cluster_status = toolchain_cluster.conditions;
      })

  -- The function behind the call of `NewClusterConfig`.
  unfoldable pub configured_cluster :
      ToolchainCluster
      → Clusters R C
      → Result (ClusterConfig R)
      → Result (CachedToolchainCluster R C)
  unfolding reusable client_for get_cached_toolchain_cluster connected_cluster
  configured_cluster toolchain_cluster clusters (err e) =
      err (wrapped "cannot create ToolchainCluster Config" e)
  configured_cluster toolchain_cluster clusters (ok config) =
      let cached = (get_cached_toolchain_cluster none toolchain_cluster.name false clusters).0 in
      connected_cluster toolchain_cluster config
        (client_for (reusable cached config.rest_config) config.rest_config)

  -- The cluster to be cached, or the error on the way to it.
  unfoldable pub cached_cluster :
      ToolchainCluster → Clusters R C → Result (CachedToolchainCluster R C)
  unfolding configured_cluster
  cached_cluster toolchain_cluster clusters =
      configured_cluster toolchain_cluster clusters
        (new_cluster_config s.kube toolchain_cluster s.timeout)

  unfoldable pub store_cluster :
      Result (CachedToolchainCluster R C) → Clusters R C → Option Error × Clusters R C
  unfolding add_cached_toolchain_cluster
  store_cluster (err e) clusters = (some e, clusters)
  store_cluster (ok cluster) clusters = (none, add_cached_toolchain_cluster cluster clusters)

  unfoldable pub add_toolchain_cluster :
      ToolchainCluster → Clusters R C → Option Error × Clusters R C
  unfolding store_cluster
  add_toolchain_cluster toolchain_cluster clusters =
      store_cluster (cached_cluster toolchain_cluster clusters) clusters

  unfoldable pub add_or_update_toolchain_cluster :
      ToolchainCluster → Clusters R C → Option Error × Clusters R C
  add_or_update_toolchain_cluster toolchain_cluster clusters =
      let (e, clusters') = add_toolchain_cluster toolchain_cluster clusters in
      (Option.map (wrapped "the cluster was not added nor updated") e, clusters')

  unfoldable pub delete_toolchain_cluster : String → Clusters R C → Clusters R C
  delete_toolchain_cluster name clusters = delete_cached_toolchain_cluster name clusters

  -- An item that cannot be added is logged and skipped.
  unfoldable pub refresh_items : List ToolchainCluster → Clusters R C → Clusters R C
  refresh_items [] clusters = clusters
  refresh_items (item ∷ items) clusters =
      refresh_items items (add_toolchain_cluster item clusters).1

  -- A failed listing is logged, and leaves no items.
  unfoldable pub refresh_cache : Clusters R C → Clusters R C
  unfolding refresh_items
  refresh_cache clusters = elim (s.list_clusters s.namespace) [
    | err _ ↦ clusters
    | ok items ↦ refresh_items items clusters
  ]
