-- ===== src/Controllers/Monitor.antt =====
-- controllers/toolchaincluster: the reconciler that checks the health of a cluster and writes it into
-- the status of its ToolchainCluster.
use toolchain_common.Base.{
  ℕ, String, ◌<>◌, Bool, true, not, Option, none, some, List, [], ◌∷◌, if◌then◌else◌, Result, ok,
  err, Error, failed, wrapped, is_not_found,
}
use toolchain_common.Api.{ConditionNames}
use toolchain_common.Condition.{
  Condition, add_or_update_status_conditions_with_last_updated_timestamp,
}
use toolchain_common.Cluster.Cache.{CachedToolchainCluster, Clusters, get_cached_toolchain_cluster}
use toolchain_common.Cluster.Config.{ToolchainCluster}

-- A ToolchainCluster with the rest of its status.
pub record MonitoredCluster : Type 0 where
  pub resource : ToolchainCluster
  pub open resource use *
  pub api_endpoint : String
  pub operator_namespace : String

-- The reasons that the API module names.
pub record ClusterReasons : Type 0 where
  pub not_reachable : String
  pub cluster_ready : String
  pub not_ready : String

-- The API server with the store `S`, client-go with its clientsets `Q`, the body that a GET of
-- `/healthz` gives, `strings.EqualFold`, the text of an error, and the clock.
pub record Platform (S R Q : Type 0) : Type 0 where
  pub get : S → String → String → Result MonitoredCluster
  pub update_status : MonitoredCluster → S → Option Error × S
  pub new_for_config : R → Result Q
  pub healthz : Q → Result String
  pub equal_fold : String → String → Bool
  pub error_text : Error → String
  pub clock : ℕ → ℕ

pub record Reconciler (Q : Type 0) : Type 0 where
  pub reque_after : ℕ
  pub check_health : Option (Q → Result Bool)

-- What a call of `Reconcile` returns and leaves.
pub record Reconciled (S R C : Type 0) : Type 0 where
  pub requeue_after : ℕ
  pub error : Option Error
  pub store : S
  pub clusters : Clusters R C

abbrev pub healthz_ok : String
healthz_ok = "/healthz responded with ok"

abbrev pub healthz_not_ok : String
healthz_not_ok = "/healthz responded without ok"

module _ (names : ConditionNames) (reasons : ClusterReasons) where
  abbrev pub new_condition : String → String → String → Condition
  new_condition status reason message = record {
    type = names.ready;
    status = status;
    reason = reason;
    message = message;
    last_transition_time = 0;
    last_updated_time = none;
  }

  unfoldable pub cluster_offline_condition : String → Condition
  cluster_offline_condition message = new_condition names.status_false reasons.not_reachable message

  unfoldable pub cluster_ready_condition : Condition
  cluster_ready_condition = new_condition names.status_true reasons.cluster_ready healthz_ok

  unfoldable pub cluster_not_ready_condition : Condition
  cluster_not_ready_condition = new_condition names.status_false reasons.not_ready healthz_not_ok

module _ {S R Q : Type 0} (c : Platform S R Q) where
  unfoldable pub get_cluster_health_status : Q → Result Bool
  get_cluster_health_status q = elim (c.healthz q) [
    | err e ↦ err e
    | ok body ↦ ok (c.equal_fold body "ok")
  ]

  unfoldable pub get_cluster_health : Reconciler Q → Q → Result Bool
  unfolding get_cluster_health_status
  get_cluster_health r q = elim r.check_health [
    | some check ↦ check q
    | none ↦ get_cluster_health_status q
  ]

  module _ (names : ConditionNames) (reasons : ClusterReasons) where
    unfoldable pub health_condition : Result Bool → Condition
    unfolding cluster_offline_condition cluster_ready_condition cluster_not_ready_condition
    health_condition (err e) = cluster_offline_condition names reasons (c.error_text e)
    health_condition (ok is_healthy) =
        if not is_healthy
        then cluster_not_ready_condition names reasons
        else cluster_ready_condition names reasons

    unfoldable pub get_cluster_health_condition : Reconciler Q → Q → Condition
    unfolding get_cluster_health health_condition
    get_cluster_health_condition r q = health_condition (get_cluster_health r q)

  abbrev pub update_failed : MonitoredCluster → Option Error × S → Option Error × S
  update_failed cluster (none, s) = (none, s)
  update_failed cluster (some e, s) =
      (some (wrapped ("failed to update the status of cluster - " <> cluster.name) e), s)

module _ {S R Q C : Type 0} (c : Platform S R Q) where
  -- The two fields of the status that are taken from the cached cluster, if there is one.
  unfoldable pub with_endpoint :
      Option (CachedToolchainCluster R C) → MonitoredCluster → MonitoredCluster
  with_endpoint none cluster = record cluster { api_endpoint = ""; operator_namespace = "" }
  with_endpoint (some cached) cluster = record cluster {
    api_endpoint = cached.api_endpoint;
    operator_namespace = cached.operator_namespace;
  }

  -- The cluster that `updateStatus` sends.
  unfoldable pub with_status :
      MonitoredCluster → Option (CachedToolchainCluster R C) → List Condition → MonitoredCluster
  unfolding with_endpoint
  with_status cluster cached conditions = with_endpoint cached (record cluster {
    resource = record cluster.resource {
      conditions =
          add_or_update_status_conditions_with_last_updated_timestamp cluster.conditions conditions
            c.clock;
    };
  })

  unfoldable pub update_status :
      MonitoredCluster → Option (CachedToolchainCluster R C) → List Condition → S → Option Error × S
  unfolding with_status
  update_status cluster cached conditions s =
      update_failed c cluster (c.update_status (with_status cluster cached conditions) s)

  module _ (names : ConditionNames) (reasons : ClusterReasons) (r : Reconciler Q) where
    -- An error behind which the cluster is marked as offline; a failed update is logged.
    abbrev pub offline :
        MonitoredCluster
        → Option (CachedToolchainCluster R C)
        → Error
        → S
        → Clusters R C
        → Reconciled S R C
    offline cluster cached e s clusters = record {
      requeue_after = 0;
      error = some e;
      store =
          (update_status cluster cached
            (cluster_offline_condition names reasons (c.error_text e) ∷ []) s).1;
      clusters = clusters;
    }

    abbrev pub finished : Option Error × S → Clusters R C → Reconciled S R C
    finished (some e, s) clusters = record {
      requeue_after = 0;
      error = some e;
      store = s;
      clusters = clusters;
    }
    finished (none, s) clusters = record {
      requeue_after = r.reque_after;
      error = none;
      store = s;
      clusters = clusters;
    }

    unfoldable pub check_connected :
        MonitoredCluster
        → CachedToolchainCluster R C
        → Result Q
        → S
        → Clusters R C
        → Reconciled S R C
    unfolding update_status cluster_offline_condition get_cluster_health_condition
    check_connected cluster cached (err e) s clusters = offline cluster (some cached) e s clusters
    check_connected cluster cached (ok q) s clusters =
        finished
          (update_status cluster (some cached)
            (get_cluster_health_condition c names reasons r q ∷ []) s)
          clusters

    unfoldable pub check_cached :
        MonitoredCluster → Option (CachedToolchainCluster R C) × Clusters R C → S → Reconciled S R C
    unfolding check_connected update_status cluster_offline_condition
    check_cached cluster (none, clusters) s =
        offline cluster none (failed ("cluster " <> (cluster.name <> " not found in cache"))) s
          clusters
    check_cached cluster (some cached, clusters) s =
        check_connected cluster cached (c.new_for_config cached.rest_config) s clusters

    -- `Reconcile` behind its call of `Get`.
    unfoldable pub reconcile_read :
        Option (Clusters R C → Clusters R C)
        → Result MonitoredCluster
        → S
        → Clusters R C
        → Reconciled S R C
    unfolding check_cached
    reconcile_read refresh (err e) s clusters = record {
      requeue_after = 0;
      error = if is_not_found e then none else some e;
      store = s;
      clusters = clusters;
    }
    reconcile_read refresh (ok cluster) s clusters =
        check_cached cluster (get_cached_toolchain_cluster refresh cluster.name true clusters) s

    unfoldable pub reconcile :
        Option (Clusters R C → Clusters R C) → String → String → S → Clusters R C → Reconciled S R C
    unfolding reconcile_read
    reconcile refresh namespace name s clusters =
        reconcile_read refresh (c.get s namespace name) s clusters
