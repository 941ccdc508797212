-- ===== src/Cluster/CacheLaws.antt =====
-- What the readers of the cache return, and what they leave in it.
use mathlib.Core.Path.{subst}
use toolchain_common.Base.{
  String, ◌≡◌, ◌↔◌, refl, Bool, true, false, Option, none, some, List, [], ◌∷◌, string_eq,
  if◌then◌else◌, arith, all, In, Bool-cases, inl, inr,
}
use toolchain_common.Base.Dict.{lookup, values}
use toolchain_common.Api.{ConditionNames}
use toolchain_common.Condition.{Condition, is_true, find_condition_by_type}
use toolchain_common.Condition.Lookup.{view, view-cons, NodupTypes}
use toolchain_common.Cluster.Cache.{
  CachedToolchainCluster, Clusters, Order, is_empty, first, is_ready, refreshed,
  get_cached_toolchain_cluster, meets, filter_clusters, get_cached_toolchain_clusters,
  get_host_cluster, get_member_clusters,
}

is_ready_of_absent :
    (names : ConditionNames) (cs : List Condition)
    → view cs names.ready ≡ none
    → is_ready names cs ≡ false
unfolding is_ready
is_ready_of_absent names [] h = refl
is_ready_of_absent names (c ∷ cs) h =
    ground (arith, is_ready_of_absent names cs, view-cons c cs names.ready)

-- Where no type occurs twice, `IsReady` is `IsTrue` of the condition `Ready`.
pub is_ready-eq-is_true :
    (names : ConditionNames) (cs : List Condition)
    → NodupTypes cs
    → is_ready names cs ≡ is_true names cs names.ready
unfolding is_ready is_true find_condition_by_type
is_ready-eq-is_true names [] u = refl
is_ready-eq-is_true names (c ∷ cs) (fresh, u) =
    ground (arith, is_ready-eq-is_true names cs u, is_ready_of_absent names cs)

module _ {R C : Type 0} where
  -- Looking up one cluster gives the entry of the cache that is left. The cache is refreshed exactly
  -- if the cluster is missing, the caller allows it and there is a refresh; otherwise it stays.
  pub get_cached_toolchain_cluster_lem :
      (refresh : Option (Clusters R C → Clusters R C)) (name : String) (allowed : Bool)
      (clusters : Clusters R C)
      → let (found, clusters') = get_cached_toolchain_cluster refresh name allowed clusters in
        (found ≡ lookup name clusters')
        × (clusters' ≡ (elim (lookup name clusters) [
          | some _ ↦ clusters
          | none ↦ if allowed then refreshed refresh clusters else clusters
        ]))
  unfolding get_cached_toolchain_cluster
  get_cached_toolchain_cluster_lem refresh name allowed clusters = ground arith

  meets-eq-all :
      (conditions : List (CachedToolchainCluster R C → Bool)) (c : CachedToolchainCluster R C)
      → meets conditions c ≡ all (λ match. match c) conditions
  unfolding meets
  meets-eq-all [] c = refl
  meets-eq-all (match ∷ conditions) c = ground (arith, meets-eq-all conditions c)

  In-filter_clusters :
      (c : CachedToolchainCluster R C) (l : List (CachedToolchainCluster R C))
      (conditions : List (CachedToolchainCluster R C → Bool))
      → In c (filter_clusters l conditions) ↔ (In c l × (all (λ match. match c) conditions ≡ true))
  unfolding filter_clusters
  In-filter_clusters c [] conditions = (λ h. absurd h, λ (h, _). absurd h)
  In-filter_clusters c (d ∷ l) conditions =
      ground (arith, In-filter_clusters c l conditions, meets-eq-all conditions d)

module _ {R C : Type 0} (order : Order R C) where
  -- A range over a map visits exactly its entries.
  abbrev pub VisitsAll : Type 0
  VisitsAll =
      (c : CachedToolchainCluster R C) (l : List (CachedToolchainCluster R C))
      → In c (order l) ↔ In c l

  In-get_cached_toolchain_clusters :
      VisitsAll
      → (conditions : List (CachedToolchainCluster R C → Bool)) (clusters : Clusters R C)
        (c : CachedToolchainCluster R C)
      → In c (get_cached_toolchain_clusters order conditions clusters)
        ↔ (In c (values clusters) × (all (λ match. match c) conditions ≡ true))
  unfolding get_cached_toolchain_clusters
  In-get_cached_toolchain_clusters v conditions clusters c = (
    λ h.
        let (i, m) = (In-filter_clusters c (order (values clusters)) conditions).0 h in
        ((v c (values clusters)).0 i, m),
    λ (i, m).
        (In-filter_clusters c (order (values clusters)) conditions).1
          ((v c (values clusters)).1 i, m),
  )

  -- The member clusters are those of the cache that is left which meet all conditions, if a range
  -- visits all entries. The cache is refreshed exactly if no cluster of the old one meets them.
  pub get_member_clusters_lem :
      (refresh : Option (Clusters R C → Clusters R C))
      (conditions : List (CachedToolchainCluster R C → Bool)) (clusters : Clusters R C)
      (c : CachedToolchainCluster R C)
      → VisitsAll
      → let (found, clusters') = get_member_clusters order refresh conditions clusters in
        (In c found ↔ (In c (values clusters') × (all (λ match. match c) conditions ≡ true)))
        × (clusters' ≡ (
            if is_empty (get_cached_toolchain_clusters order conditions clusters)
            then refreshed refresh clusters
            else clusters))
  unfolding get_member_clusters
  get_member_clusters_lem refresh conditions clusters c v =
      elim (Bool-cases (is_empty (get_cached_toolchain_clusters order conditions clusters))) [
        | inl e ↦
            rw e
              (In-get_cached_toolchain_clusters v conditions (refreshed refresh clusters) c, refl)
        | inr e ↦ rw e (In-get_cached_toolchain_clusters v conditions clusters c, refl)
      ]

abbrev pub HostFound : {R C : Type 0} → Option (CachedToolchainCluster R C) → Clusters R C → Type 0
HostFound none clusters = values clusters ≡ []
HostFound (some c) clusters = In c (values clusters)

module _ {R C : Type 0} (order : Order R C) where
  first-HostFound :
      VisitsAll order
      → (clusters : Clusters R C) (l : List (CachedToolchainCluster R C))
      → get_cached_toolchain_clusters order [] clusters ≡ l
      → HostFound (first l) clusters
  first-HostFound v clusters [] e = none_listed (values clusters) refl
    where
      none_listed :
          (cs : List (CachedToolchainCluster R C)) → values clusters ≡ cs → values clusters ≡ []
      none_listed [] p = p
      none_listed (c ∷ cs) p = absurd (
          subst (In c) e
            ((In-get_cached_toolchain_clusters order v [] clusters c).1 (rw p (inl refl), refl)))
  first-HostFound v clusters (c ∷ l) e =
      ((In-get_cached_toolchain_clusters order v [] clusters c).0 (rw e (inl refl))).0

  -- If a range visits all entries, the host cluster is one of the cache that is left, and there is
  -- none only if that is empty. The cache is refreshed exactly if no cluster was found in the old one.
  pub get_host_cluster_lem :
      (refresh : Option (Clusters R C → Clusters R C)) (clusters : Clusters R C)
      → VisitsAll order
      → let (found, clusters') = get_host_cluster order refresh clusters in
        HostFound found clusters'
        × (clusters' ≡ (
            if is_empty (get_cached_toolchain_clusters order [] clusters)
            then refreshed refresh clusters
            else clusters))
  unfolding get_host_cluster
  get_host_cluster_lem refresh clusters v =
      elim (Bool-cases (is_empty (get_cached_toolchain_clusters order [] clusters))) [
        | inl e ↦ rw e (first-HostFound v (refreshed refresh clusters) _ refl, refl)
        | inr e ↦ rw e (first-HostFound v clusters _ refl, refl)
      ]
