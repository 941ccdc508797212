-- ===== src/Cluster/Invariant.antt =====
-- The invariant of the cache, kept by every call that changes it.
use mathlib.Core.Path.{subst}
use toolchain_common.Base.{
  String, ◌≡◌, refl, none, some, List, [], ◌∷◌, Eq, ◌==◌, string_eq, if◌then◌else◌, Result, ok, err,
  arith,
}
use toolchain_common.Base.Dict.{
  lookup, NodupKeys, lookup-insert, lookup-erase, insert-NodupKeys, erase-NodupKeys,
}
use toolchain_common.Cluster.Cache.{
  CachedToolchainCluster, Clusters, delete_cached_toolchain_cluster,
}
use toolchain_common.Cluster.Config.{ToolchainCluster}
use toolchain_common.Cluster.Service.{
  ToolchainClusterService, cached_cluster, store_cluster, add_toolchain_cluster, refresh_items,
  refresh_cache, add_or_update_toolchain_cluster, delete_toolchain_cluster,
}
use toolchain_common.Cluster.ServiceLaws.{IsUsable, cached_cluster-IsUsable}

pub record IsValid {R C : Type 0} (clusters : Clusters R C) : Type 0 where
  pub nodup : NodupKeys clusters
  pub usable :
      (name : String) (c : CachedToolchainCluster R C)
      → lookup name clusters ≡ some c
      → IsUsable name c

module _ {R C K : Type 0} ⦃eq : Eq R⦄ (s : ToolchainClusterService R C K) where
  store_cluster-IsValid :
      (r : Result (CachedToolchainCluster R C)) (clusters : Clusters R C)
      → ((c : CachedToolchainCluster R C) → r ≡ ok c → IsUsable c.name c)
      → IsValid clusters
      → IsValid (store_cluster s r clusters).1
  unfolding store_cluster
  store_cluster-IsValid (err e) clusters usable v = v
  store_cluster-IsValid (ok c) clusters usable v = record {
    nodup = insert-NodupKeys c.name c clusters v.nodup;
    usable = λ name d h.
        by_name name d (subst (λ o. o ≡ some d) (lookup-insert name c.name c clusters) h);
  }
    where
      by_name :
          (name : String) (d : CachedToolchainCluster R C)
          → (if name == c.name then some c else lookup name clusters) ≡ some d
          → IsUsable name d
      by_name name d h = ground (arith, usable c refl, v.usable name d)

  add-IsValid :
      (cluster : ToolchainCluster) (clusters : Clusters R C)
      → IsValid clusters
      → IsValid (add_toolchain_cluster s cluster clusters).1
  unfolding add_toolchain_cluster
  add-IsValid cluster clusters =
      store_cluster-IsValid (cached_cluster s cluster clusters) clusters λ c e.
        let u = (cached_cluster-IsUsable s cluster clusters c e).0 in
        record { named = refl; connected = u.connected; namespaced = u.namespaced }

  refresh_items-IsValid :
      (items : List ToolchainCluster) (clusters : Clusters R C)
      → IsValid clusters
      → IsValid (refresh_items s items clusters)
  unfolding refresh_items
  refresh_items-IsValid [] clusters v = v
  refresh_items-IsValid (item ∷ items) clusters v =
      refresh_items-IsValid items (add_toolchain_cluster s item clusters).1
        (add-IsValid item clusters v)

  delete-IsValid :
      (name : String) (clusters : Clusters R C)
      → IsValid clusters
      → IsValid (delete_toolchain_cluster s name clusters)
  unfolding delete_toolchain_cluster delete_cached_toolchain_cluster
  delete-IsValid name clusters v = record {
    nodup = erase-NodupKeys name clusters v.nodup;
    usable = λ j c h. kept j c (subst (λ o. o ≡ some c) (lookup-erase j name clusters) h);
  }
    where
      kept :
          (j : String) (c : CachedToolchainCluster R C)
          → (if j == name then none else lookup j clusters) ≡ some c
          → IsUsable j c
      kept j c h = ground (arith, v.usable j c)

  -- The calls that change the cache.
  pub data Call : Type 0 where
    add : ToolchainCluster → Call
    delete : String → Call
    refresh : Call

  abbrev pub run : Clusters R C → List Call → Clusters R C
  run clusters [] = clusters
  run clusters (add cluster ∷ calls) =
      run (add_or_update_toolchain_cluster s cluster clusters).1 calls
  run clusters (delete name ∷ calls) = run (delete_toolchain_cluster s name clusters) calls
  run clusters (refresh ∷ calls) = run (refresh_cache s clusters) calls

  refresh_cache-IsValid :
      (clusters : Clusters R C) → IsValid clusters → IsValid (refresh_cache s clusters)
  unfolding refresh_cache
  refresh_cache-IsValid clusters v = by_listing (s.list_clusters s.namespace)
    where
      by_listing :
          (r : Result (List ToolchainCluster))
          → IsValid {R = R} {C = C}
              (elim r [ err _ ↦ clusters | ok items ↦ refresh_items s items clusters ])
      by_listing (err e) = v
      by_listing (ok items) = refresh_items-IsValid items clusters v

  -- From a valid cache, every sequence of additions, deletions and refreshes leads to a valid one:
  -- each name has one entry, a cluster of that name that has a client and an operator namespace.
  pub run-IsValid :
      (calls : List Call) (clusters : Clusters R C)
      → IsValid clusters
      → IsValid (run clusters calls)
  unfolding add_or_update_toolchain_cluster
  run-IsValid [] clusters v = v
  run-IsValid (add cluster ∷ calls) clusters v =
      run-IsValid calls (add_toolchain_cluster s cluster clusters).1
        (add-IsValid cluster clusters v)
  run-IsValid (delete name ∷ calls) clusters v =
      run-IsValid calls (delete_toolchain_cluster s name clusters) (delete-IsValid name clusters v)
  run-IsValid (refresh ∷ calls) clusters v =
      run-IsValid calls (refresh_cache s clusters) (refresh_cache-IsValid clusters v)
