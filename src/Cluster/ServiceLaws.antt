-- ===== src/Cluster/ServiceLaws.antt =====
-- What the service adds to the cache, and the invariant of the cache.
use toolchain_common.Base.{
  ℕ, String, ◌≡◌, ◌≢◌, refl, true, Option, none, some, Eq, ◌==◌, string_eq, if◌then◌else◌, Result,
  ok, err, Error, wrapped, arith, is_some,
}
use toolchain_common.Base.Dict.{lookup, lookup-insert}
use toolchain_common.Cluster.Cache.{ClusterConfig, CachedToolchainCluster, Clusters}
use toolchain_common.Cluster.Config.{
  ToolchainCluster, Kube, new_cluster_config, or_empty, label_owner_cluster_name,
}
use toolchain_common.Cluster.Service.{
  ToolchainClusterService, connected_cluster, configured_cluster, cached_cluster, store_cluster,
  add_toolchain_cluster, add_or_update_toolchain_cluster,
}

-- What holds of every entry of the cache: it stands under the name of its cluster, has a client, and
-- its operator namespace is known.
pub record IsUsable {R C : Type 0} (name : String) (c : CachedToolchainCluster R C) : Type 0 where
  pub named : c.name ≡ name
  pub connected : is_some c.client ≡ true
  pub namespaced : c.operator_namespace ≢ ""

module _ {R K : Type 0} (kube : Kube R K) where
  -- A configuration, if there is one, has the name and the labels of its resource, the host of its
  -- REST configuration as its endpoint, and the owner that the labels name.
  pub new_cluster_config_lem :
      (cluster : ToolchainCluster) (timeout : ℕ) (config : ClusterConfig R)
      → new_cluster_config kube cluster timeout ≡ ok config
      → (cluster.secret_ref_name ≢ "")
        × (config.name ≡ cluster.name)
        × (config.labels ≡ cluster.labels)
        × (config.api_endpoint ≡ kube.host config.rest_config)
        × (config.owner_cluster_name ≡ or_empty (lookup label_owner_cluster_name cluster.labels))
  unfolding new_cluster_config
  new_cluster_config_lem cluster timeout config h = ground arith

module _ {R C K : Type 0} ⦃eq : Eq R⦄ (s : ToolchainClusterService R C K) where
  connected_cluster-IsUsable :
      (cluster : ToolchainCluster) (config : ClusterConfig R) (r : Result C)
      (c : CachedToolchainCluster R C)
      → connected_cluster s cluster config r ≡ ok c
      → config.name ≡ cluster.name
      → IsUsable cluster.name c × (c.cluster_status ≡ cluster.conditions)
  unfolding connected_cluster
  connected_cluster-IsUsable cluster config (err e) c h named = cc
  connected_cluster-IsUsable cluster config (ok client) c h named = ground arith

  configured_cluster-IsUsable :
      (cluster : ToolchainCluster) (clusters : Clusters R C) (r : Result (ClusterConfig R))
      (c : CachedToolchainCluster R C)
      → configured_cluster s cluster clusters r ≡ ok c
      → ((config : ClusterConfig R) → r ≡ ok config → config.name ≡ cluster.name)
      → IsUsable cluster.name c × (c.cluster_status ≡ cluster.conditions)
  unfolding configured_cluster
  configured_cluster-IsUsable cluster clusters (err e) c h named = cc
  configured_cluster-IsUsable cluster clusters (ok config) c h named =
      connected_cluster-IsUsable cluster config _ c h (named config refl)

  pub cached_cluster-IsUsable :
      (cluster : ToolchainCluster) (clusters : Clusters R C) (c : CachedToolchainCluster R C)
      → cached_cluster s cluster clusters ≡ ok c
      → IsUsable cluster.name c × (c.cluster_status ≡ cluster.conditions)
  unfolding cached_cluster
  cached_cluster-IsUsable cluster clusters c h =
      configured_cluster-IsUsable cluster clusters (new_cluster_config s.kube cluster s.timeout) c h
        λ config e. (new_cluster_config_lem s.kube cluster s.timeout config e).1

  -- The entry of a name after a cluster is stored.
  abbrev pub stored :
      Result (CachedToolchainCluster R C)
      → Option (CachedToolchainCluster R C)
      → Option (CachedToolchainCluster R C)
  stored (err _) old = old
  stored (ok c) old = some c

  abbrev pub error_of : Result (CachedToolchainCluster R C) → Option Error
  error_of (err e) = some (wrapped "the cluster was not added nor updated" e)
  error_of (ok c) = none

  lookup-store_cluster :
      (r : Result (CachedToolchainCluster R C)) (clusters : Clusters R C) (name j : String)
      → ((c : CachedToolchainCluster R C) → r ≡ ok c → c.name ≡ name)
      → lookup j (store_cluster s r clusters).1
        ≡ (if j == name then stored r (lookup j clusters) else lookup j clusters)
  unfolding store_cluster
  lookup-store_cluster (err e) clusters name j named = ground arith
  lookup-store_cluster (ok c) clusters name j named =
      ground (arith, named c refl, lookup-insert j c.name c clusters)

  pub lookup-add :
      (cluster : ToolchainCluster) (clusters : Clusters R C) (j : String)
      → lookup j (add_toolchain_cluster s cluster clusters).1 ≡ (
          if j == cluster.name
          then stored (cached_cluster s cluster clusters) (lookup j clusters)
          else lookup j clusters)
  unfolding add_toolchain_cluster
  lookup-add cluster clusters j =
      lookup-store_cluster (cached_cluster s cluster clusters) clusters cluster.name j
        λ c e. (cached_cluster-IsUsable cluster clusters c e).0.named

  error-add :
      (cluster : ToolchainCluster) (clusters : Clusters R C)
      → (add_or_update_toolchain_cluster s cluster clusters).0
        ≡ error_of (cached_cluster s cluster clusters)
  unfolding add_or_update_toolchain_cluster add_toolchain_cluster store_cluster
  error-add cluster clusters = ground arith

  cached_reuse :
      (cluster : ToolchainCluster) (clusters : Clusters R C) (old : CachedToolchainCluster R C)
      (client : C) (config : ClusterConfig R)
      → lookup cluster.name clusters ≡ some old
      → old.client ≡ some client
      → new_cluster_config s.kube cluster s.timeout ≡ ok config
      → old.rest_config ≡ config.rest_config
      → config.operator_namespace ≢ ""
      → cached_cluster s cluster clusters
        ≡ ok (record { config = config; client = some client; cluster_status = cluster.conditions })
  unfolding cached_cluster
  cached_reuse cluster clusters old client config cached connected loaded same named = ground arith

  -- `AddOrUpdateToolchainCluster` puts the cluster that is to be cached under the name of the
  -- resource and returns no error, or it returns the wrapped error and leaves that entry; all other
  -- entries stay.
  pub lookup-add_or_update :
      (cluster : ToolchainCluster) (clusters : Clusters R C) (j : String)
      → let (e, clusters') = add_or_update_toolchain_cluster s cluster clusters in
        (e ≡ error_of (cached_cluster s cluster clusters))
        × (lookup j clusters' ≡ (
            if j == cluster.name
            then stored (cached_cluster s cluster clusters) (lookup j clusters)
            else lookup j clusters))
  unfolding add_or_update_toolchain_cluster
  lookup-add_or_update cluster clusters j =
      (error-add cluster clusters, lookup-add cluster clusters j)

  -- A cached client is used again, whatever `newClient` would do, if the REST configuration is the
  -- one that it was made for.
  pub add_reuses_client :
      (cluster : ToolchainCluster) (clusters : Clusters R C) (old : CachedToolchainCluster R C)
      (client : C) (config : ClusterConfig R)
      → lookup cluster.name clusters ≡ some old
      → old.client ≡ some client
      → new_cluster_config s.kube cluster s.timeout ≡ ok config
      → old.rest_config ≡ config.rest_config
      → config.operator_namespace ≢ ""
      → lookup cluster.name (add_or_update_toolchain_cluster s cluster clusters).1
        ≡ some
            (record { config = config; client = some client; cluster_status = cluster.conditions })
  unfolding add_or_update_toolchain_cluster
  add_reuses_client cluster clusters old client config cached connected loaded same named =
      rw lookup-add (
        ground (
          arith,
          cached_reuse cluster clusters old client config cached connected loaded same named,
        ))
