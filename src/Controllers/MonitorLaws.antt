-- ===== src/Controllers/MonitorLaws.antt =====
-- What the reconciler of controllers/toolchaincluster leaves in the status of a ToolchainCluster.
use toolchain_common.Base.{
  String, ◌≡◌, refl, ◌∙◌, ap, sym, ◌<>◌, true, false, Option, none, some, [], ◌∷◌, string_eq,
  Result, ok, err, Error, failed, arith,
}
use mathlib.Core.Path.{subst}
use toolchain_common.Api.{ConditionNames, DistinctStatuses}
use toolchain_common.Cluster.Cache.{CachedToolchainCluster, Clusters, get_cached_toolchain_cluster}
use toolchain_common.Controllers.Monitor.{
  MonitoredCluster, ClusterReasons, Platform, Reconciler, cluster_offline_condition,
  get_cluster_health, health_condition, get_cluster_health_condition, with_status, update_status,
  finished, offline, check_connected, check_cached, reconcile_read, reconcile,
}
use toolchain_common.Controllers.StatusLaws.{
  IsStatusServer, Reports, is_healthy, accepted_lem, health_condition_lem, offline_lem,
  update_status-Reports,
}

module _ {S R Q C : Type 0} (c : Platform S R Q) (server : IsStatusServer c)
    (names : ConditionNames) (reasons : ClusterReasons) (distinct : DistinctStatuses names)
    (r : Reconciler Q) where
  finished_lem :
      (u : Option Error × S) (clusters : Clusters R C)
      → (finished c names reasons r u clusters).error ≡ none
      → (u.0 ≡ none)
        × ((finished c names reasons r u clusters).requeue_after ≡ r.reque_after)
        × ((finished c names reasons r u clusters).store ≡ u.1)
  finished_lem (none, s) clusters done = (refl, refl, refl)
  finished_lem (some e, s) clusters done = ground arith

  check_connected-Reports :
      (m : MonitoredCluster) (cached : CachedToolchainCluster R C) (q : Q) (s : S)
      (clusters : Clusters R C)
      → let o = check_connected c names reasons r m cached (ok q) s clusters in
        o.error ≡ none
        → (o.requeue_after ≡ r.reque_after)
          × Reports c names m (is_healthy (get_cluster_health c r q)) (some cached) o.store
  unfolding check_connected get_cluster_health_condition
  check_connected-Reports m cached q s clusters done =
      let health = get_cluster_health c r q in
      let (typed, is) = health_condition_lem c names reasons distinct health in
      let new = health_condition c names reasons health in
      let u = update_status c m (some cached) (new ∷ []) s in
      let (accepted, requeued, same) = finished_lem u clusters done in
      (
        requeued,
        subst (λ s'. Reports c names m (is_healthy health) (some cached) s') (sym same)
            (update_status-Reports c server names m (some cached) new (is_healthy health) s typed is
              accepted),
      )

  check_cached-eq-check_connected :
      (m : MonitoredCluster) (p : Option (CachedToolchainCluster R C) × Clusters R C)
      (cached : CachedToolchainCluster R C) (q : Result Q) (s : S)
      → p.0 ≡ some cached
      → c.new_for_config cached.rest_config ≡ q
      → check_cached c names reasons r m p s ≡ check_connected c names reasons r m cached q s p.1
  unfolding check_cached
  check_cached-eq-check_connected m (none, clusters) cached q s found connected = ground arith
  check_cached-eq-check_connected m (some k, clusters) cached q s found connected = ground arith

  -- On an API server that gives back the status that it accepted, and with different names for the
  -- two statuses of a condition: if the cluster is in the cache, a clientset can be made for it
  -- and the reconciler returns no error, then it asks to be called again after its delay, and the
  -- store has the cluster with the cached endpoint and namespace, ready exactly if the health
  -- check succeeds and says so. All other conditions of the cluster stay.
  pub reconcile-Reports :
      (refresh : Option (Clusters R C → Clusters R C)) (namespace name : String) (s : S)
      (clusters : Clusters R C) (m : MonitoredCluster) (cached : CachedToolchainCluster R C) (q : Q)
      → c.get s namespace name ≡ ok m
      → (get_cached_toolchain_cluster refresh m.name true clusters).0 ≡ some cached
      → c.new_for_config cached.rest_config ≡ ok q
      → (reconcile c names reasons r refresh namespace name s clusters).error ≡ none
      → ((reconcile c names reasons r refresh namespace name s clusters).requeue_after
          ≡ r.reque_after)
        × Reports c names m
            (is_healthy (get_cluster_health c r q))
            (some cached)
            (reconcile c names reasons r refresh namespace name s clusters).store
  unfolding reconcile reconcile_read
  reconcile-Reports refresh namespace name s clusters m cached q got found connected done =
      let p = get_cached_toolchain_cluster refresh m.name true clusters in
      let same =
        ap (λ x. reconcile_read c names reasons r refresh x s clusters) got
        ∙ check_cached-eq-check_connected m p cached (ok q) s found connected in
      subst
        (λ o.
          (o.requeue_after ≡ r.reque_after)
          × Reports c names m (is_healthy (get_cluster_health c r q)) (some cached) o.store)
        (sym same) (check_connected-Reports m cached q s p.1 (sym (ap (λ o. o.error) same) ∙ done))

  -- Why a cluster cannot be reached, if it cannot.
  abbrev pub obstacle : MonitoredCluster → Option (CachedToolchainCluster R C) → Option Error
  obstacle m none = some (failed ("cluster " <> (m.name <> " not found in cache")))
  obstacle m (some cached) = elim (c.new_for_config cached.rest_config) [
    | ok _ ↦ none
    | err e ↦ some e
  ]

  check_cached-eq-offline :
      (m : MonitoredCluster) (p : Option (CachedToolchainCluster R C) × Clusters R C) (e : Error)
      (s : S)
      → obstacle m p.0 ≡ some e
      → check_cached c names reasons r m p s ≡ offline c names reasons r m p.0 e s p.1
  unfolding check_cached check_connected
  check_cached-eq-offline m (none, clusters) e s failing = ground arith
  check_cached-eq-offline m (some cached, clusters) e s failing = ground arith

  -- On an API server that gives back the status that it accepted, and with different names for the
  -- two statuses: if the cluster is not in the cache, or no clientset can be made for it, then
  -- that is the error returned, whether or not the status can be updated, and there is no delay.
  -- If it can be updated, the store has the cluster as not ready, with the endpoint and namespace
  -- of the cached cluster, or empty ones, and with all other conditions as they were.
  pub reconcile-obstacle :
      (refresh : Option (Clusters R C → Clusters R C)) (namespace name : String) (s : S)
      (clusters : Clusters R C) (m : MonitoredCluster) (e : Error)
      → c.get s namespace name ≡ ok m
      → let cached = (get_cached_toolchain_cluster refresh m.name true clusters).0 in
        let o = reconcile c names reasons r refresh namespace name s clusters in
        let x =
          with_status c m cached (cluster_offline_condition names reasons (c.error_text e) ∷ []) in
        obstacle m cached ≡ some e
        → (o.error ≡ some e)
          × (o.requeue_after ≡ 0)
          × ((c.update_status x s).0 ≡ none → Reports c names m false cached o.store)
  unfolding reconcile reconcile_read update_status
  reconcile-obstacle refresh namespace name s clusters m e got failing =
      let p = get_cached_toolchain_cluster refresh m.name true clusters in
      let new = cluster_offline_condition names reasons (c.error_text e) in
      let same =
        ap (λ x. reconcile_read c names reasons r refresh x s clusters) got
        ∙ check_cached-eq-offline m p e s failing in
      let (typed, is) = offline_lem names reasons distinct (c.error_text e) in
      (
        ap (λ o. o.error) same,
        ap (λ o. o.requeue_after) same,
        λ accepted.
            subst (λ o. Reports c names m false p.0 o.store) (sym same)
              (update_status-Reports c server names m p.0 new false s typed is
                (accepted_lem c m (c.update_status (with_status c m p.0 (new ∷ [])) s) accepted)),
      )
