-- ===== src/Cluster/Cache.antt =====
-- pkg/cluster/cache.go. The order in which Go ranges over a map is not determined, so it is a
-- parameter, `order`; what `clusterCache.refreshCache` does to the map is a parameter too, and `none`
-- if it is nil.
use toolchain_common.Base.{
  String, Bool, true, false, not, ◌&&◌, Option, none, some, List, [], ◌∷◌, ◌==◌, string_eq,
  if◌then◌else◌, is_some,
}
use toolchain_common.Base.Dict.{Dict, lookup, insert, erase, values}
use toolchain_common.Api.{ConditionNames}
use toolchain_common.Condition.{Condition}

pub record ClusterConfig (R : Type 0) : Type 0 where
  pub rest_config : R
  pub name : String
  pub api_endpoint : String
  pub operator_namespace : String
  pub owner_cluster_name : String
  pub labels : Dict String String

-- `cluster_status` is the list of conditions of the ToolchainClusterStatus.
pub record CachedToolchainCluster (R C : Type 0) : Type 0 where
  pub config : ClusterConfig R
  pub open config use *
  pub client : Option C
  pub cluster_status : List Condition

abbrev pub Clusters : Type 0 → Type 0 → Type 0
Clusters R C = Dict String (CachedToolchainCluster R C)

module _ (names : ConditionNames) where
  unfoldable pub is_ready : List Condition → Bool
  is_ready [] = false
  is_ready (condition ∷ rest) =
      if condition.type == names.ready
      then if condition.status == names.status_true then true else is_ready rest
      else is_ready rest

  -- `Ready`
  unfoldable pub ready : {R C : Type 0} → CachedToolchainCluster R C → Bool
  unfolding is_ready
  ready cluster = is_ready cluster.cluster_status

module _ {R C : Type 0} where
  unfoldable pub add_cached_toolchain_cluster :
      CachedToolchainCluster R C → Clusters R C → Clusters R C
  add_cached_toolchain_cluster cluster clusters = insert cluster.name cluster clusters

  unfoldable pub delete_cached_toolchain_cluster : String → Clusters R C → Clusters R C
  delete_cached_toolchain_cluster name clusters = erase name clusters

  -- The map after a refresh, if there is one to be made.
  unfoldable pub refreshed : Option (Clusters R C → Clusters R C) → Clusters R C → Clusters R C
  refreshed none clusters = clusters
  refreshed (some refresh) clusters = refresh clusters

  unfoldable pub get_cached_toolchain_cluster :
      Option (Clusters R C → Clusters R C)
      → String
      → Bool
      → Clusters R C
      → Option (CachedToolchainCluster R C) × Clusters R C
  unfolding refreshed
  get_cached_toolchain_cluster refresh name can_refresh_cache clusters =
      let missing = not (is_some (lookup name clusters)) in
      let clusters' =
        if missing && can_refresh_cache then refreshed refresh clusters else clusters in
      (lookup name clusters', clusters')

  -- The inner loop: whether every condition accepts a cluster.
  unfoldable pub meets :
      List (CachedToolchainCluster R C → Bool) → CachedToolchainCluster R C → Bool
  meets [] cluster = true
  meets (match ∷ conditions) cluster =
      if not (match cluster) then false else meets conditions cluster

  unfoldable pub filter_clusters :
      List (CachedToolchainCluster R C)
      → List (CachedToolchainCluster R C → Bool)
      → List (CachedToolchainCluster R C)
  unfolding meets
  filter_clusters [] conditions = []
  filter_clusters (cluster ∷ rest) conditions =
      let rest' = filter_clusters rest conditions in
      if meets conditions cluster then cluster ∷ rest' else rest'

-- The order in which a range over a map visits its entries, given some list of them.
abbrev pub Order : Type 0 → Type 0 → Type 0
Order R C = List (CachedToolchainCluster R C) → List (CachedToolchainCluster R C)

abbrev pub is_empty {ℓ} : {A : Type ℓ} → List A → Bool
is_empty [] = true
is_empty (_ ∷ _) = false

abbrev pub first {ℓ} : {A : Type ℓ} → List A → Option A
first [] = none
first (a ∷ _) = some a

module _ {R C : Type 0} (order : Order R C) where
  unfoldable pub get_cached_toolchain_clusters :
      List (CachedToolchainCluster R C → Bool) → Clusters R C → List (CachedToolchainCluster R C)
  unfolding filter_clusters
  get_cached_toolchain_clusters conditions clusters =
      filter_clusters (order (values clusters)) conditions

  -- `GetMemberClusters`: the clusters that meet the conditions, after a refresh if there was none.
  unfoldable pub get_member_clusters :
      Option (Clusters R C → Clusters R C)
      → List (CachedToolchainCluster R C → Bool)
      → Clusters R C
      → List (CachedToolchainCluster R C) × Clusters R C
  unfolding refreshed
  get_member_clusters refresh conditions clusters =
      let found = get_cached_toolchain_clusters conditions clusters in
      let clusters' = refreshed refresh clusters in
      if is_empty found
      then (get_cached_toolchain_clusters conditions clusters', clusters')
      else (found, clusters)

  -- `GetHostCluster`: the first cluster, after a refresh if there was none.
  unfoldable pub get_host_cluster :
      Option (Clusters R C → Clusters R C)
      → Clusters R C
      → Option (CachedToolchainCluster R C) × Clusters R C
  unfolding refreshed
  get_host_cluster refresh clusters =
      let found = get_cached_toolchain_clusters [] clusters in
      let clusters' = refreshed refresh clusters in
      if is_empty found
      then (first (get_cached_toolchain_clusters [] clusters'), clusters')
      else (first found, clusters)
