-- ===== src/Controllers/StatusLaws.antt =====
-- What `updateStatus` of controllers/toolchaincluster leaves in the store, and the conditions that it is given.
use toolchain_common.Base.{
  ℕ, String, ◌≡◌, refl, ◌∙◌, ap, Bool, true, false, Option, none, some, List, [], ◌∷◌, ◌==◌,
  string_eq, Result, ok, err, Error, arith,
}
use toolchain_common.Api.{ConditionNames, DistinctStatuses}
use toolchain_common.Condition.{
  Condition, is_true, add_or_update_status_condition, add_or_update_status_conditions_internal,
  add_or_update_loop, add_or_update_status_conditions_with_last_updated_timestamp,
}
use toolchain_common.Condition.Lookup.{view}
use toolchain_common.Condition.Update.{view-add_or_update}
use toolchain_common.Condition.Queries.{is_true-add_or_update}
use toolchain_common.Cluster.Cache.{CachedToolchainCluster}
use toolchain_common.Controllers.Monitor.{
  MonitoredCluster, ClusterReasons, Platform, cluster_offline_condition, cluster_ready_condition,
  cluster_not_ready_condition, health_condition, with_endpoint, with_status, update_failed,
  update_status,
}

-- What is documented of the API server: after an update of its status an object is read with the status
-- that was sent.
pub record IsStatusServer {S R Q : Type 0} (c : Platform S R Q) : Type 0 where
  pub updated :
      (x : MonitoredCluster) (s : S)
      → (c.update_status x s).0 ≡ none
      → c.get (c.update_status x s).1 x.namespace x.name ≡ ok x

abbrev pub is_healthy : Result Bool → Bool
is_healthy (err e) = false
is_healthy (ok b) = b

abbrev pub endpoint_of : {R C : Type 0} → Option (CachedToolchainCluster R C) → String
endpoint_of none = ""
endpoint_of (some cached) = cached.api_endpoint

abbrev pub namespace_of : {R C : Type 0} → Option (CachedToolchainCluster R C) → String
namespace_of none = ""
namespace_of (some cached) = cached.operator_namespace

-- The store has the cluster with this readiness and these endpoints, and with the other conditions as
-- they were.
pub record Reports {S R Q C : Type 0} (c : Platform S R Q) (names : ConditionNames)
    (m : MonitoredCluster) (ready : Bool) (cached : Option (CachedToolchainCluster R C)) (s : S)
    : Type 0 where
  pub cluster : MonitoredCluster
  pub stored : c.get s m.namespace m.name ≡ ok cluster
  pub readiness : is_true names cluster.conditions names.ready ≡ ready
  pub others :
      (t : String) → (names.ready == t) ≡ false → view cluster.conditions t ≡ view m.conditions t
  pub endpoint : cluster.api_endpoint ≡ endpoint_of cached
  pub namespace : cluster.operator_namespace ≡ namespace_of cached

with_timestamp_one :
    (cs : List Condition) (new : Condition) (clock : ℕ → ℕ)
    → add_or_update_status_conditions_with_last_updated_timestamp cs (new ∷ []) clock
      ≡ (add_or_update_status_condition cs new true (clock 0)).0
unfolding add_or_update_status_conditions_with_last_updated_timestamp
    add_or_update_status_conditions_internal add_or_update_loop
with_timestamp_one cs new clock = refl

pub sent :
    {S R Q : Type 0} (c : Platform S R Q) (m : MonitoredCluster) (r : Option Error × S)
    → (update_failed c m r).0 ≡ none
    → (r.0 ≡ none) × (update_failed c m r ≡ r)
sent c m (none, s) done = (refl, refl)
sent c m (some e, s) done = ground arith

pub accepted_lem :
    {S R Q : Type 0} (c : Platform S R Q) (m : MonitoredCluster) (u : Option Error × S)
    → u.0 ≡ none
    → (update_failed c m u).0 ≡ none
accepted_lem c m (none, s) accepted = refl
accepted_lem c m (some e, s) accepted = ground arith

pub health_condition_lem :
    {S R Q : Type 0} (c : Platform S R Q) (names : ConditionNames) (reasons : ClusterReasons)
    → DistinctStatuses names
    → (health : Result Bool)
    → ((health_condition c names reasons health).type ≡ names.ready)
      × (((health_condition c names reasons health).status == names.status_true)
          ≡ is_healthy health)
unfolding health_condition cluster_offline_condition cluster_ready_condition
    cluster_not_ready_condition
health_condition_lem c names reasons distinct (err e) = (refl, ground (arith, distinct))
health_condition_lem c names reasons distinct (ok true) = (refl, ground arith)
health_condition_lem c names reasons distinct (ok false) = (refl, ground (arith, distinct))

pub offline_lem :
    (names : ConditionNames) (reasons : ClusterReasons)
    → DistinctStatuses names
    → (text : String)
    → ((cluster_offline_condition names reasons text).type ≡ names.ready)
      × (((cluster_offline_condition names reasons text).status == names.status_true) ≡ false)
unfolding cluster_offline_condition
offline_lem names reasons distinct text = (refl, ground (arith, distinct))

module _ {S R Q C : Type 0} (c : Platform S R Q) (server : IsStatusServer c)
    (names : ConditionNames) where
  with_status_lem :
      (m : MonitoredCluster) (cached : Option (CachedToolchainCluster R C)) (new : List Condition)
      → ((with_status c m cached new).conditions
          ≡ add_or_update_status_conditions_with_last_updated_timestamp m.conditions new c.clock)
        × ((with_status c m cached new).namespace ≡ m.namespace)
        × ((with_status c m cached new).name ≡ m.name)
        × ((with_status c m cached new).api_endpoint ≡ endpoint_of cached)
        × ((with_status c m cached new).operator_namespace ≡ namespace_of cached)
  unfolding with_status with_endpoint
  with_status_lem m none new = (refl, refl, refl, refl, refl)
  with_status_lem m (some x) new = (refl, refl, refl, refl, refl)

  pub update_status-Reports :
      (m : MonitoredCluster) (cached : Option (CachedToolchainCluster R C)) (new : Condition)
      (ready : Bool) (s : S)
      → new.type ≡ names.ready
      → (new.status == names.status_true) ≡ ready
      → (update_status c m cached (new ∷ []) s).0 ≡ none
      → Reports c names m ready cached (update_status c m cached (new ∷ []) s).1
  unfolding update_status
  update_status-Reports m cached new ready s typed is done =
      let x = with_status c m cached (new ∷ []) in
      let (conditions, namespace, name, endpoint, operator) = with_status_lem m cached (new ∷ []) in
      let all = conditions ∙ with_timestamp_one m.conditions new c.clock in
      let (accepted, same) = sent c m (c.update_status x s) done in
      record {
        cluster = x;
        stored = cc (same, namespace, name, server.updated x s accepted);
        readiness =
            ap (λ cs. is_true names cs names.ready) all
            ∙ ground
                (arith, is_true-add_or_update names m.conditions new true (c.clock 0) names.ready);
        others = λ t other.
            ap (λ cs. view cs t) all
            ∙ ground (arith, view-add_or_update m.conditions new true (c.clock 0) t);
        endpoint = endpoint;
        namespace = operator;
      }
