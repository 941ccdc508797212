-- ===== src/Controllers/CacheSync.antt =====
-- controllers/toolchainclustercache: the reconciler that keeps the cache of clusters up to date, and
-- the predicate on its events.
use toolchain_common.Base.{
  String, Bool, Option, none, some, List, [], ◌∷◌, Eq, ◌==◌, string_eq, if◌then◌else◌, Result, ok,
  err, Error, is_not_found,
}
use toolchain_common.Cluster.Cache.{Clusters}
use toolchain_common.Cluster.Config.{ToolchainCluster}
use toolchain_common.Cluster.Service.{
  ToolchainClusterService, add_or_update_toolchain_cluster, delete_toolchain_cluster,
}

-- The fields of the reconciler that matter. `get` is the read of a ToolchainCluster by namespace and
-- name.
pub record Reconciler (R C K : Type 0) : Type 0 where
  pub get : String → String → Result ToolchainCluster
  pub cluster_cache_service : ToolchainClusterService R C K
  pub namespace : String

-- The four methods of `namespacePredicate`, each with the namespace of its event's object.
unfoldable pub update : String → String → Bool
update namespace object_new = object_new == namespace

unfoldable pub create : String → String → Bool
create namespace object = object == namespace

unfoldable pub delete : String → String → Bool
delete namespace object = object == namespace

unfoldable pub generic : String → String → Bool
generic namespace object = object == namespace

module _ {R C K : Type 0} ⦃eq : Eq R⦄ (r : Reconciler R C K) where
  unfoldable pub reconcile_read :
      Result ToolchainCluster → String → Clusters R C → Option Error × Clusters R C
  reconcile_read (err e) name clusters =
      if is_not_found e
      then (none, delete_toolchain_cluster r.cluster_cache_service name clusters)
      else (some e, clusters)
  reconcile_read (ok toolchain_cluster) name clusters =
      add_or_update_toolchain_cluster r.cluster_cache_service toolchain_cluster clusters

  -- `Reconcile`: the error, and the cache.
  unfoldable pub reconcile : String → String → Clusters R C → Option Error × Clusters R C
  unfolding reconcile_read
  reconcile namespace name clusters = reconcile_read (r.get namespace name) name clusters

  -- The manager's queue: the requests whose events the predicate lets pass, one after the other.
  abbrev pub reconcile_all : List (String × String) → Clusters R C → Clusters R C
  reconcile_all [] clusters = clusters
  reconcile_all ((namespace, name) ∷ requests) clusters =
      reconcile_all requests
        (if generic r.namespace namespace then (reconcile namespace name clusters).1 else clusters)
