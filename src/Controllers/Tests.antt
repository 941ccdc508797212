-- ===== src/Controllers/Tests.antt =====
-- Runs of the reconcilers of controllers, and their theorems at concrete data.
use toolchain_common.Base.{
  ok_inj, ℕ, ◌+◌, String, ◌≡◌, ◌≢◌, refl, ap, ◌∙◌, Bool, true, false, Option, none, some, [], ◌∷◌,
  ◌==◌, string_eq, nat_eq, if◌then◌else◌, Result, ok, err, Error, failed, not_found, arith, inl,
  inr, ne_of_==,
}
use toolchain_common.Base.Dict.{lookup}
use toolchain_common.Api.{kubernetes_names}
use toolchain_common.Cluster.Cache.{CachedToolchainCluster, Clusters, get_cached_toolchain_cluster}
use toolchain_common.Cluster.Config.{
  ToolchainCluster, new_cluster_config, load_config_from_kube_config,
}
use toolchain_common.Cluster.Service.{
  cached_cluster, configured_cluster, connected_cluster, client_for, reusable, create_client,
}
use toolchain_common.Cluster.Tests.{member, service, cached, config}
use toolchain_common.Controllers.Monitor.{
  MonitoredCluster, ClusterReasons, Platform, Reconciler, get_cluster_health,
  get_cluster_health_status, reconcile,
}
use toolchain_common.Controllers.StatusLaws.{IsStatusServer, Reports, is_healthy}
use toolchain_common.Controllers.MonitorLaws.{reconcile-Reports, reconcile-obstacle}
use toolchain_common.Controllers.CacheSync
use toolchain_common.Controllers.CacheSyncLaws.{InSync, IsReachable, reconcile_all-InSync}

abbrev platform : Platform (Option MonitoredCluster) String String
platform = record {
  get = λ s namespace name. elim s [ none ↦ err (not_found name) | some x ↦ ok x ];
  update_status = λ x s. (none, some x);
  new_for_config =
      λ rest. elim (rest == "broken") [ true ↦ err (failed "no clientset") | false ↦ ok rest ];
  healthz = λ q. ok "OK";
  equal_fold = λ a b. a == "OK";
  error_text = λ e. "error";
  clock = λ k. 100 + k;
}

platform-IsStatusServer : IsStatusServer platform
platform-IsStatusServer = record { updated = λ x s done. refl }

abbrev reasons : ClusterReasons
reasons = record { not_reachable = "NotReachable"; cluster_ready = "Ready"; not_ready = "NotReady" }

abbrev reconciler : Reconciler String
reconciler = record { reque_after = 10; check_health = none }

abbrev monitored : MonitoredCluster
monitored = record { resource = member "m1" "secret"; api_endpoint = ""; operator_namespace = "" }

distinct : kubernetes_names.status_true ≢ kubernetes_names.status_false
unfolding string_eq
distinct = ne_of_== "True" "False" refl

abbrev no_cached : Option (CachedToolchainCluster String ℕ)
no_cached = none

abbrev clusters : Clusters String ℕ
clusters = ("m1", cached 3) ∷ []

abbrev no_refresh : Option (Clusters String ℕ → Clusters String ℕ)
no_refresh = none

reconcile-Reports_example :
    ((reconcile platform kubernetes_names reasons reconciler no_refresh "host" "m1"
        (some monitored)
        clusters).requeue_after
      ≡ 10)
    × Reports platform kubernetes_names monitored
        (is_healthy (get_cluster_health platform reconciler "https://cfg"))
        (some (cached 3))
        (reconcile platform kubernetes_names reasons reconciler no_refresh "host" "m1"
          (some monitored)
          clusters).store
unfolding get_cached_toolchain_cluster lookup string_eq reconcile
reconcile-Reports_example =
    reconcile-Reports platform platform-IsStatusServer kubernetes_names reasons distinct reconciler
      no_refresh "host" "m1" (some monitored) clusters monitored (cached 3) "https://cfg" refl refl
      refl refl

healthy : is_healthy (get_cluster_health platform reconciler "https://cfg") ≡ true
unfolding get_cluster_health get_cluster_health_status string_eq
healthy = refl

abbrev missing : Error
missing = failed "cluster m1 not found in cache"

reconcile-obstacle_example :
    ((reconcile platform kubernetes_names reasons reconciler no_refresh "host" "m1"
        (some monitored)
        []).error
      ≡ some missing)
    × ((reconcile platform kubernetes_names reasons reconciler no_refresh "host" "m1"
          (some monitored)
          []).requeue_after
        ≡ 0)
    × Reports platform kubernetes_names monitored false no_cached
        (reconcile platform kubernetes_names reasons reconciler no_refresh "host" "m1"
          (some monitored)
          []).store
unfolding get_cached_toolchain_cluster lookup string_eq
reconcile-obstacle_example =
    let (e, requeue, reports) =
      reconcile-obstacle platform platform-IsStatusServer kubernetes_names reasons distinct
        reconciler no_refresh "host" "m1" (some monitored) [] monitored missing refl refl in
    (e, requeue, reports refl)

abbrev synced : CacheSync.Reconciler String ℕ String
synced = record {
  get = λ namespace name. if name == "m1" then ok (member "m1" "secret") else err (not_found name);
  cluster_cache_service = service;
  namespace = "host";
}

connected :
    (client : Option ℕ) (e : Error)
    → connected_cluster service
        (member "m1" "secret")
        config
        (client_for service client "https://cfg")
      ≢ err e
unfolding connected_cluster client_for create_client string_eq
connected none e failing = ground arith
connected (some k) e failing = ground arith

member_connects :
    (clusters : Clusters String ℕ) (e : Error)
    → cached_cluster service (member "m1" "secret") clusters ≢ err e
unfolding cached_cluster configured_cluster new_cluster_config load_config_from_kube_config lookup
    string_eq
member_connects clusters e failing =
    connected
      (reusable service (get_cached_toolchain_cluster none "m1" false clusters).0 "https://cfg") e
      failing

synced-IsReachable : IsReachable synced
synced-IsReachable = record {
  answers = λ name e got. ground arith;
  named = λ name cluster got. ground arith;
  connects = λ name cluster clusters e got failing.
      pick (name == "m1") name cluster clusters e got failing;
}
  where
    pick :
        (b : Bool) (name : String) (cluster : ToolchainCluster) (clusters : Clusters String ℕ)
        (e : Error)
        → ◌≡◌ {A = Result ToolchainCluster}
            (if b then ok (member "m1" "secret") else err (not_found name))
            (ok cluster)
        → cached_cluster service cluster clusters ≢ err e
    pick true name cluster clusters e got failing =
        member_connects clusters e
          (ap (λ x. cached_cluster service x clusters) (ok_inj got) ∙ failing)
    pick false name cluster clusters e got failing = ground arith

reconcile_all-InSync_example : InSync {R = String} {C = ℕ} (err (not_found "m2")) (
    lookup "m2" (
      CacheSync.reconcile_all synced
        (("host", "m1") ∷ ("host", "m2") ∷ [])
        (("m2", cached 3) ∷ [])))
unfolding string_eq
reconcile_all-InSync_example =
    reconcile_all-InSync synced synced-IsReachable (("host", "m1") ∷ ("host", "m2") ∷ [])
      (("m2", cached 3) ∷ []) "m2" (inr (inl refl))
