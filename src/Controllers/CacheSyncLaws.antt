-- ===== src/Controllers/CacheSyncLaws.antt =====
-- Reconciling every change of a ToolchainCluster brings the cache in line with the API server.
use mathlib.Core.Path.{subst}
use toolchain_common.Base.{
  String, ◌≡◌, ◌≢◌, refl, ap, sym, true, false, Option, none, some, List, [], ◌∷◌, Eq, ◌==◌,
  string_eq, if◌then◌else◌, Result, ok, err, Error, is_not_found, arith, In, inl, inr, ◌⊎◌, ==_refl,
  eq_of_==, ne_of_==, Bool-cases,
}
use toolchain_common.Base.Dict.{lookup, lookup-erase}
use toolchain_common.Cluster.Cache.{
  CachedToolchainCluster, Clusters, delete_cached_toolchain_cluster,
}
use toolchain_common.Cluster.Config.{ToolchainCluster}
use toolchain_common.Cluster.Service.{delete_toolchain_cluster, cached_cluster}
use toolchain_common.Cluster.ServiceLaws.{
  lookup-add_or_update, stored, IsUsable, cached_cluster-IsUsable,
}
use toolchain_common.Controllers.CacheSync.{
  Reconciler, generic, reconcile_read, reconcile, reconcile_all,
}

-- What the cache should hold under a name, given what the API server says of it: nothing of a cluster
-- that is gone, and of every other a usable cluster with its conditions.
abbrev pub InSync :
    {R C : Type 0} → Result ToolchainCluster → Option (CachedToolchainCluster R C) → Type 0
InSync (err e) entry = entry ≡ none
InSync (ok cluster) none = ⊥
InSync (ok cluster) (some c) = IsUsable cluster.name c × (c.cluster_status ≡ cluster.conditions)

module _ {R C K : Type 0} ⦃eq : Eq R⦄ (r : Reconciler R C K) where
  -- The API server answers for every name of the namespace, with the ToolchainCluster of the name or
  -- by not finding it, and each ToolchainCluster can be connected to.
  pub record IsReachable : Type 0 where
    pub answers :
        (name : String) (e : Error) → r.get r.namespace name ≡ err e → is_not_found e ≡ true
    pub named :
        (name : String) (cluster : ToolchainCluster)
        → r.get r.namespace name ≡ ok cluster
        → cluster.name ≡ name
    pub connects :
        (name : String) (cluster : ToolchainCluster) (clusters : Clusters R C) (e : Error)
        → r.get r.namespace name ≡ ok cluster
        → cached_cluster r.cluster_cache_service cluster clusters ≢ err e

  module _ (reachable : IsReachable) where
    stored-InSync :
        (cluster : ToolchainCluster) (clusters : Clusters R C)
        (built : Result (CachedToolchainCluster R C)) (old : Option (CachedToolchainCluster R C))
        → cached_cluster r.cluster_cache_service cluster clusters ≡ built
        → ((e : Error) → built ≢ err e)
        → InSync {R = R} {C = C} (ok cluster) (stored r.cluster_cache_service built old)
    stored-InSync cluster clusters (err e) old is never = absurd (never e refl)
    stored-InSync cluster clusters (ok c) old is never =
        cached_cluster-IsUsable r.cluster_cache_service cluster clusters c is

    lookup-reconcile_read :
        (answer : Result ToolchainCluster) (name j : String) (clusters : Clusters R C)
        → r.get r.namespace name ≡ answer
        → (j == name) ≡ false
        → lookup j (reconcile_read r answer name clusters).1 ≡ lookup j clusters
    unfolding reconcile_read delete_toolchain_cluster delete_cached_toolchain_cluster
    lookup-reconcile_read (err e) name j clusters got other =
        ground (arith, lookup-erase j name clusters)
    lookup-reconcile_read (ok cluster) name j clusters got other = ground (
      arith,
      reachable.named name cluster got,
      (lookup-add_or_update r.cluster_cache_service cluster clusters j).1,
    )

    reconcile_read-InSync :
        (answer : Result ToolchainCluster) (name : String) (clusters : Clusters R C)
        → r.get r.namespace name ≡ answer
        → InSync {R = R} {C = C} answer (lookup name (reconcile_read r answer name clusters).1)
    unfolding reconcile_read delete_toolchain_cluster delete_cached_toolchain_cluster
    reconcile_read-InSync (err e) name clusters got =
        ground (arith, reachable.answers name e got, lookup-erase name name clusters, ==_refl name)
    reconcile_read-InSync (ok cluster) name clusters got =
        let s = r.cluster_cache_service in
        subst (λ entry. InSync {R = R} {C = C} (ok cluster) entry)
          (sym (
            ground (
              arith,
              reachable.named name cluster got,
              (lookup-add_or_update s cluster clusters name).1,
            )))
          (stored-InSync cluster clusters (cached_cluster s cluster clusters) (lookup name clusters)
            refl (λ e. reachable.connects name cluster clusters e got))

    abbrev Synced : String → Clusters R C → Type 0
    Synced name clusters = InSync {R = R} {C = C} (r.get r.namespace name) (lookup name clusters)

    reconcile-Synced :
        (name j : String) (clusters : Clusters R C)
        → (j ≡ name) ⊎ Synced j clusters
        → Synced j (reconcile r r.namespace name clusters).1
    unfolding reconcile
    reconcile-Synced name j clusters (inl same) =
        subst (λ n. Synced n (reconcile_read r (r.get r.namespace name) name clusters).1) (sym same)
          (reconcile_read-InSync (r.get r.namespace name) name clusters refl)
    reconcile-Synced name j clusters (inr synced) = elim (Bool-cases (j == name)) [
      | inl same ↦
          subst (λ n. Synced n (reconcile_read r (r.get r.namespace name) name clusters).1)
            (sym (eq_of_== j name same))
            (reconcile_read-InSync (r.get r.namespace name) name clusters refl)
      | inr other ↦
          subst (λ entry. InSync {R = R} {C = C} (r.get r.namespace j) entry)
            (sym (lookup-reconcile_read (r.get r.namespace name) name j clusters refl other)) synced
    ]

    -- A request is one of those that are let pass, or it is dropped.
    choose-Synced :
        (namespace name j : String) (clusters : Clusters R C)
        → ((namespace ≡ r.namespace) × (j ≡ name)) ⊎ Synced j clusters
        → Synced j (
            if generic r.namespace namespace
            then (reconcile r namespace name clusters).1
            else clusters)
    unfolding generic
    choose-Synced namespace name j clusters due = elim (Bool-cases (namespace == r.namespace)) [
      | inl here ↦
          subst
            (λ n. Synced j (if n == r.namespace then (reconcile r n name clusters).1 else clusters))
            (sym (eq_of_== namespace r.namespace here))
            (rw (==_refl r.namespace) (
              reconcile-Synced name j clusters
                (elim due [ inl p ↦ inl p.1 | inr synced ↦ inr synced ])))
      | inr other ↦ rw other (elim due [
        | inl p ↦ absurd (ne_of_== namespace r.namespace other p.0)
        | inr synced ↦ synced
      ])
    ]

    reconcile_all-kept :
        (requests : List (String × String)) (clusters : Clusters R C) (j : String)
        → Synced j clusters
        → Synced j (reconcile_all r requests clusters)
    reconcile_all-kept [] clusters j synced = synced
    reconcile_all-kept ((namespace, name) ∷ requests) clusters j synced =
        reconcile_all-kept requests
          (if generic r.namespace namespace
            then (reconcile r namespace name clusters).1
            else clusters)
          j (choose-Synced namespace name j clusters (inr synced))

    -- Whatever the cache held, once the requests of the queue are worked off, in any order and with any
    -- others among them, the cache agrees with the API server on every name of the namespace that was
    -- requested: a ToolchainCluster that is gone has no entry, and every other a usable one with its
    -- conditions. The server has to answer, and each ToolchainCluster can be connected to.
    pub reconcile_all-InSync :
        (requests : List (String × String)) (clusters : Clusters R C) (name : String)
        → In (r.namespace, name) requests
        → InSync {R = R} {C = C}
            (r.get r.namespace name)
            (lookup name (reconcile_all r requests clusters))
    reconcile_all-InSync [] clusters name requested = absurd requested
    reconcile_all-InSync ((namespace, n) ∷ requests) clusters name (inl now) =
        reconcile_all-kept requests
          (if generic r.namespace namespace then (reconcile r namespace n clusters).1 else clusters)
          name
          (choose-Synced namespace n name clusters
            (inl (ap (λ p. p.0) (sym now), ap (λ p. p.1) now)))
    reconcile_all-InSync ((namespace, n) ∷ requests) clusters name (inr later) =
        reconcile_all-InSync requests
          (if generic r.namespace namespace then (reconcile r namespace n clusters).1 else clusters)
          name later
