-- ===== src/Cluster/RefreshLaws.antt =====
-- What a refresh of the cache leaves in it.
use toolchain_common.Base.{
  String, ◌≡◌, ◌≢◌, refl, ◌∙◌, false, none, List, [], ◌∷◌, Eq, string_eq, Result, ok, err, arith,
  In, inl, inr,
}
use toolchain_common.Base.Dict.{lookup}
use mathlib.Core.Path.{ap₂}
use toolchain_common.Cluster.Cache.{ClusterConfig, Clusters, get_cached_toolchain_cluster}
use toolchain_common.Cluster.Config.{ToolchainCluster, new_cluster_config}
use toolchain_common.Cluster.Service.{
  ToolchainClusterService, cached_cluster, configured_cluster, add_toolchain_cluster, refresh_items,
  refresh_cache,
}
use toolchain_common.Cluster.ServiceLaws.{stored, lookup-add}

-- No item of a list has the name.
abbrev pub IsUnlisted : String → List ToolchainCluster → Type 0
IsUnlisted name [] = Unit
IsUnlisted name (item ∷ items) = (name ≢ item.name) × IsUnlisted name items

-- The API server lists each name of a namespace once.
abbrev pub NodupNames : List ToolchainCluster → Type 0
NodupNames [] = Unit
NodupNames (item ∷ items) = IsUnlisted item.name items × NodupNames items

cached_as_stored :
    {R C : Type 0} (name : String) (c : Clusters R C)
    → (get_cached_toolchain_cluster none name false c).0 ≡ lookup name c
unfolding get_cached_toolchain_cluster
cached_as_stored name c = ground arith

-- What a listing does not name: a cluster that no item of it has, or any if it failed.
abbrev pub NotListed : String → Result (List ToolchainCluster) → Type 0
NotListed name (err e) = Unit
NotListed name (ok items) = IsUnlisted name items

module _ {R C K : Type 0} ⦃eq : Eq R⦄ (s : ToolchainClusterService R C K) where
  cached_cluster_congr :
      (item : ToolchainCluster) (c d : Clusters R C)
      → lookup item.name c ≡ lookup item.name d
      → cached_cluster s item c ≡ cached_cluster s item d
  unfolding cached_cluster
  cached_cluster_congr item c d e = by_config (new_cluster_config s.kube item s.timeout)
    where
      by_config :
          (r : Result (ClusterConfig R))
          → configured_cluster s item c r ≡ configured_cluster s item d r
      by_config (err x) = refl
      by_config (ok config) =
          ground (arith, cached_as_stored item.name c, cached_as_stored item.name d)

  lookup-add_ne :
      (item : ToolchainCluster) (clusters : Clusters R C) (name : String)
      → name ≢ item.name
      → lookup name (add_toolchain_cluster s item clusters).1 ≡ lookup name clusters
  lookup-add_ne item clusters name n = ground (arith, lookup-add s item clusters name)

  lookup-refresh_items_unlisted :
      (items : List ToolchainCluster) (clusters : Clusters R C) (name : String)
      → IsUnlisted name items
      → lookup name (refresh_items s items clusters) ≡ lookup name clusters
  unfolding refresh_items
  lookup-refresh_items_unlisted [] clusters name u = refl
  lookup-refresh_items_unlisted (item ∷ items) clusters name (n, u) =
      lookup-refresh_items_unlisted items (add_toolchain_cluster s item clusters).1 name u
      ∙ lookup-add_ne item clusters name n

  IsUnlisted-ne :
      (name : String) (item : ToolchainCluster) (items : List ToolchainCluster)
      → IsUnlisted name items
      → In item items
      → item.name ≢ name
  IsUnlisted-ne name item [] u m = elim m [ ]
  IsUnlisted-ne name item (i ∷ items) (n, u) (inl e) = ground arith
  IsUnlisted-ne name item (i ∷ items) (n, u) (inr m) = IsUnlisted-ne name item items u m

  lookup-refresh_items :
      (items : List ToolchainCluster) (clusters : Clusters R C) (item : ToolchainCluster)
      → NodupNames items
      → In item items
      → lookup item.name (refresh_items s items clusters)
        ≡ stored s (cached_cluster s item clusters) (lookup item.name clusters)
  unfolding refresh_items
  lookup-refresh_items [] clusters item n m = elim m [ ]
  lookup-refresh_items (i ∷ items) clusters item (u, n) (inl e) = rw e (
      lookup-refresh_items_unlisted items (add_toolchain_cluster s i clusters).1 i.name u
      ∙ ground (arith, lookup-add s i clusters i.name))
  lookup-refresh_items (i ∷ items) clusters item (u, n) (inr m) =
      let ne = IsUnlisted-ne i.name item items u m in
      let same = lookup-add_ne i clusters item.name ne in
      let clusters' = (add_toolchain_cluster s i clusters).1 in
      lookup-refresh_items items clusters' item n m
      ∙ ap₂ (stored s) (cached_cluster_congr item clusters' clusters same) same

  -- If the API server lists ToolchainClusters with different names, a refresh leaves under the name of
  -- each the cluster built from it, or the old entry if that fails.
  pub lookup-refresh_cache :
      (clusters : Clusters R C) (items : List ToolchainCluster) (item : ToolchainCluster)
      → s.list_clusters s.namespace ≡ ok items
      → NodupNames items
      → In item items
      → lookup item.name (refresh_cache s clusters)
        ≡ stored s (cached_cluster s item clusters) (lookup item.name clusters)
  unfolding refresh_cache
  lookup-refresh_cache clusters items item listed n m =
      rw (listed, refresh_cache) (lookup-refresh_items items clusters item n m)

  -- A refresh drops nothing: a cluster that is not listed any more keeps its entry, and so do all if
  -- the listing fails.
  pub lookup-refresh_cache_unlisted :
      (clusters : Clusters R C) (listing : Result (List ToolchainCluster)) (name : String)
      → s.list_clusters s.namespace ≡ listing
      → NotListed name listing
      → lookup name (refresh_cache s clusters) ≡ lookup name clusters
  unfolding refresh_cache
  lookup-refresh_cache_unlisted clusters (err e) name listed u = rw (listed, refresh_cache) refl
  lookup-refresh_cache_unlisted clusters (ok items) name listed u =
      rw (listed, refresh_cache) (lookup-refresh_items_unlisted items clusters name u)
