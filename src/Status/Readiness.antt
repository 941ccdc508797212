-- ===== src/Status/Readiness.antt =====
-- When the conditions of pkg/status are ready.
use toolchain_common.Base.{
  ℕ, ◌+◌, ◌-◌, String, ◌≡◌, ◌↔◌, refl, Bool, true, false, not, ◌&&◌, ◌||◌, Option, none, some, List,
  [], ◌∷◌, ◌==◌, string_eq, ltb, if◌then◌else◌, arith, all, All, is_some,
}
use toolchain_common.Api.{ConditionNames, DistinctStatuses}
use toolchain_common.Condition.{Condition, is_true, find_condition_by_type}
use toolchain_common.Cluster.Cache.{CachedToolchainCluster, is_ready}
use toolchain_common.Status.Components.{
  StatusReasons, DeploymentCondition, is_unready, check_deployment,
  get_deployment_status_conditions, new_component_ready_condition, new_component_error_condition,
  validate_component_condition_ready, find_last_updated, check_last_probe,
  get_toolchain_cluster_conditions,
}

-- A component is validated exactly when `IsTrue` holds of its ready condition.
pub validate-eq-is_true :
    (names : ConditionNames) (conditions : List Condition)
    → (validate_component_condition_ready names conditions ≡ none)
      ↔ (is_true names conditions names.ready ≡ true)
unfolding validate_component_condition_ready is_true
validate-eq-is_true names conditions = ground arith

-- The conditions of a Deployment that count are true.
abbrev pub is_available : ConditionNames → List DeploymentCondition → Bool
is_available names conditions =
    all
      (λ c. not (c.type == "Available" || c.type == "Progressing") || c.status == names.status_true)
      conditions

type-check_deployment :
    (names : ConditionNames) (r : StatusReasons) (conditions : List DeploymentCondition) (now : ℕ)
    → (check_deployment names r conditions now).type ≡ names.ready
unfolding check_deployment new_component_ready_condition new_component_error_condition
type-check_deployment names r [] now = refl
type-check_deployment names r (c ∷ conditions) now =
    ground (arith, type-check_deployment names r conditions now)

check_deployment_lem :
    (names : ConditionNames) (r : StatusReasons) (conditions : List DeploymentCondition) (now : ℕ)
    → DistinctStatuses names
    → ((check_deployment names r conditions now).status == names.status_true)
      ≡ is_available names conditions
unfolding check_deployment is_unready new_component_ready_condition new_component_error_condition
check_deployment_lem names r [] now differ = ground arith
check_deployment_lem names r (c ∷ conditions) now differ =
    ground (arith, check_deployment_lem names r conditions now differ)

-- The conditions given for a Deployment are validated exactly when the Deployment could be read and
-- each of its conditions of type Available or Progressing is true.
pub validate-get_deployment_status_conditions :
    (names : ConditionNames) (r : StatusReasons) (error_text : Option String)
    (conditions : List DeploymentCondition) (now : ℕ)
    → DistinctStatuses names
    → is_true names (get_deployment_status_conditions names r error_text conditions now) names.ready
      ≡ (elim error_text [ some e ↦ false | none ↦ is_available names conditions ])
unfolding get_deployment_status_conditions is_true find_condition_by_type
    new_component_error_condition
validate-get_deployment_status_conditions names r (some error_text) conditions now differ =
    ground arith
validate-get_deployment_status_conditions names r none conditions now differ = ground (
  arith,
  check_deployment_lem names r conditions now differ,
  type-check_deployment names r conditions now,
)

-- The last of the times of the ready conditions, if none of them is nil.
abbrev pub last_time : ConditionNames → List Condition → Option ℕ → Option ℕ
last_time names [] found = found
last_time names (c ∷ conditions) found =
    last_time names conditions (if c.type == names.ready then c.last_updated_time else found)

abbrev pub AreTimed : ConditionNames → List Condition → Type 0
AreTimed names conditions =
    All (λ c. c.type ≡ names.ready → is_some c.last_updated_time ≡ true) conditions

abbrev pub wrap : Option ℕ → Option (Option ℕ)
wrap none = none
wrap (some t) = some (some t)

find_last_updated_lem :
    (names : ConditionNames) (conditions : List Condition) (found : Option ℕ)
    → AreTimed names conditions
    → find_last_updated names conditions (wrap found) ≡ wrap (last_time names conditions found)
unfolding find_last_updated
find_last_updated_lem names [] found _ = refl
find_last_updated_lem names (c ∷ conditions) found (timed, all_timed) = ground (
  arith,
  find_last_updated_lem names conditions c.last_updated_time all_timed,
  find_last_updated_lem names conditions found all_timed,
)

-- Whether conditions were given and are ready.
abbrev pub readiness : ConditionNames → Option (List Condition) → Option Bool
readiness names none = none
readiness names (some conditions) = some (is_true names conditions names.ready)

-- A connection is fresh when its last probe is at most the limit ago.
abbrev pub is_fresh : Option ℕ → ℕ → ℕ → Bool
is_fresh none limit now = false
is_fresh (some t) limit now = not (ltb limit (now - t))

readiness-check_last_probe :
    (names : ConditionNames) (r : StatusReasons) (duration_text : ℕ → String) (limit now : ℕ)
    (t : Option ℕ)
    → DistinctStatuses names
    → readiness names (check_last_probe names r duration_text limit now (wrap t))
      ≡ some (is_fresh t limit now)
unfolding check_last_probe is_true find_condition_by_type new_component_ready_condition
    new_component_error_condition
readiness-check_last_probe names r duration_text limit now none differ = ground arith
readiness-check_last_probe names r duration_text limit now (some t) differ = ground arith

-- When every ready condition of the connection has its last update, the check does not panic, and its
-- condition is true exactly when the cluster is ready and its last update is no longer ago than the
-- period and the timeout together.
pub readiness-get_toolchain_cluster_conditions :
    {R C : Type 0} (names : ConditionNames) (r : StatusReasons) (duration_text : ℕ → String)
    (cluster : CachedToolchainCluster R C) (period timeout now : ℕ)
    → DistinctStatuses names
    → AreTimed names cluster.cluster_status
    → readiness names
        (get_toolchain_cluster_conditions names r duration_text (some cluster) period timeout now)
      ≡ some (
          is_ready names cluster.cluster_status
          && is_fresh (last_time names cluster.cluster_status none) (period + timeout) now)
unfolding get_toolchain_cluster_conditions is_true find_condition_by_type
    new_component_error_condition
readiness-get_toolchain_cluster_conditions names r duration_text cluster period timeout now differ
      timed =
    ground (
      arith,
      find_last_updated_lem names cluster.cluster_status none timed,
      readiness-check_last_probe names r duration_text (period + timeout) now
          (last_time names cluster.cluster_status none) differ,
    )
