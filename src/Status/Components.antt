-- ===== src/Status/Components.antt =====
-- pkg/status/componentconditions.go, deployment.go and toolchaincluster.go. A reading of the clock at
-- the end of a function is an argument, `now`.
use toolchain_common.Base.{
  ℕ, ◌+◌, ◌-◌, String, ◌<>◌, Bool, not, ◌&&◌, ◌||◌, Option, none, some, List, [], ◌∷◌, ◌==◌,
  string_eq, ltb, if◌then◌else◌, Error, failed,
}
use toolchain_common.Api.{ConditionNames}
use toolchain_common.Condition.{Condition, find_condition_by_type}
use toolchain_common.Cluster.Cache.{CachedToolchainCluster, is_ready}

pub record StatusReasons : Type 0 where
  pub deployment_not_found : String
  pub deployment_not_ready : String
  pub deployment_ready : String
  pub connection_not_found : String
  pub connection_not_ready : String
  pub connection_last_probe_time_exceeded : String
  pub connection_ready : String
  pub revision_check_disabled : String
  pub revision_check_operator_error : String
  pub revision_check_github_error : String
  pub not_up_to_date : String
  pub up_to_date : String

-- The fields of appsv1.DeploymentCondition that are read.
pub record DeploymentCondition : Type 0 where
  pub type : String
  pub status : String

module _ (names : ConditionNames) where
  unfoldable pub new_component_ready_condition : String → ℕ → Condition
  new_component_ready_condition reason now = record {
    type = names.ready;
    status = names.status_true;
    reason = reason;
    message = "";
    last_transition_time = now;
    last_updated_time = some now;
  }

  unfoldable pub new_component_error_condition : String → String → ℕ → Condition
  new_component_error_condition reason msg now = record {
    type = names.ready;
    status = names.status_false;
    reason = reason;
    message = msg;
    last_transition_time = now;
    last_updated_time = some now;
  }

  -- None is no error.
  unfoldable pub validate_component_condition_ready : List Condition → Option Error
  validate_component_condition_ready conditions =
      let (c, found) = find_condition_by_type conditions names.ready in
      if not found
      then some (failed "a ready condition was not found")
      else (if not (c.status == names.status_true) then some (failed c.message) else none)

  -- The test of one condition of the Deployment.
  unfoldable pub is_unready : DeploymentCondition → Bool
  is_unready c =
      (c.type == "Available" || c.type == "Progressing") && not (c.status == names.status_true)

  unfoldable pub check_deployment : StatusReasons → List DeploymentCondition → ℕ → Condition
  unfolding is_unready new_component_ready_condition new_component_error_condition
  check_deployment r [] now = new_component_ready_condition r.deployment_ready now
  check_deployment r (c ∷ conditions) now =
      let rest = check_deployment r conditions now in
      if is_unready c
      then new_component_error_condition r.deployment_not_ready
          ("deployment has unready status conditions: " <> c.type) now
      else rest

  -- The argument is what the client gets: the conditions of the Deployment, or the text of its error.
  unfoldable pub get_deployment_status_conditions :
      StatusReasons → Option String → List DeploymentCondition → ℕ → List Condition
  unfolding check_deployment new_component_error_condition
  get_deployment_status_conditions r (some error_text) conditions now =
      new_component_error_condition r.deployment_not_found
        ("unable to get the deployment: " <> error_text) now
      ∷ []
  get_deployment_status_conditions r none conditions now = check_deployment r conditions now ∷ []

  -- The loop for a message of the connection.
  unfoldable pub not_ready_message : List Condition → String
  not_ready_message [] = "the cluster connection is not ready"
  not_ready_message (c ∷ conditions) =
      if c.type == "Ready" && not (c.message == "") then c.message else not_ready_message conditions

  -- The loop for the last time: none if there is no ready condition, and no time in it if the pointer
  -- that the loop reads, be it the last or not, is nil.
  unfoldable pub find_last_updated : List Condition → Option (Option ℕ) → Option (Option ℕ)
  find_last_updated [] found = found
  find_last_updated (c ∷ conditions) found =
      let skipped = find_last_updated conditions found in
      let updated = find_last_updated conditions (some c.last_updated_time) in
      if c.type == names.ready
      then elim c.last_updated_time [ none ↦ some none | some t ↦ updated ]
      else skipped

  -- The text of a duration is an argument; none is a panic, on a time that is nil.
  unfoldable pub check_last_probe :
      StatusReasons → (ℕ → String) → ℕ → ℕ → Option (Option ℕ) → Option (List Condition)
  unfolding new_component_ready_condition new_component_error_condition
  check_last_probe r duration_text max_duration now none = some (
      new_component_error_condition r.connection_not_ready
        "the time of the last probe could not be determined" now
      ∷ [])
  check_last_probe r duration_text max_duration now (some none) = none
  check_last_probe r duration_text max_duration now (some (some last_updated_time)) =
      if ltb max_duration (now - last_updated_time)
      then some (
          new_component_error_condition r.connection_last_probe_time_exceeded
            ("exceeded the maximum duration since the last probe: " <> duration_text max_duration)
            now
          ∷ [])
      else some (new_component_ready_condition r.connection_ready now ∷ [])

  unfoldable pub get_toolchain_cluster_conditions :
      {R C : Type 0}
      → StatusReasons
      → (ℕ → String)
      → Option (CachedToolchainCluster R C)
      → ℕ
      → ℕ
      → ℕ
      → Option (List Condition)
  unfolding not_ready_message find_last_updated check_last_probe new_component_error_condition
  get_toolchain_cluster_conditions r duration_text none period timeout now = some (
      new_component_error_condition r.connection_not_found "the cluster connection was not found"
        now
      ∷ [])
  get_toolchain_cluster_conditions r duration_text (some cluster) period timeout now =
      if not (is_ready names cluster.cluster_status)
      then some (
          new_component_error_condition r.connection_not_ready
            (not_ready_message cluster.cluster_status) now
          ∷ [])
      else check_last_probe r duration_text (period + timeout) now
          (find_last_updated cluster.cluster_status none)
