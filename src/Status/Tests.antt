-- ===== src/Status/Tests.antt =====
-- Runs of pkg/status, and its theorems at concrete data.
use toolchain_common.Base.{
  ℕ, String, ◌≡◌, ◌↔◌, refl, true, false, ◌&&◌, none, some, List, [], ◌∷◌, string_eq, nat_eq,
  ne_of_==, ◌⊎◌, if◌then◌else◌, ◌==◌,
}
use toolchain_common.Base.Dict.{Dict, lookup}
use toolchain_common.Api.{DistinctStatuses, kubernetes_names}
use toolchain_common.Condition.{Condition, is_true}
use toolchain_common.Cluster.Cache.{CachedToolchainCluster, is_ready}
use toolchain_common.Status.Components.{
  StatusReasons, DeploymentCondition, get_deployment_status_conditions,
  validate_component_condition_ready, get_toolchain_cluster_conditions,
}
use toolchain_common.Status.Version.{
  GithubRepository, CommitResponse, Formats, check_deployed_version_is_up_to_date,
}
use toolchain_common.Status.Readiness.{
  validate-eq-is_true, is_available, validate-get_deployment_status_conditions, readiness, is_fresh,
  last_time, readiness-get_toolchain_cluster_conditions,
}
use toolchain_common.Status.Requests.{IsAllowed, check_deployed_version_is_up_to_date-IsDue}

abbrev reasons : StatusReasons
reasons = record {
  deployment_not_found = "DeploymentNotFound";
  deployment_not_ready = "DeploymentNotReady";
  deployment_ready = "DeploymentReady";
  connection_not_found = "ConnectionNotFound";
  connection_not_ready = "ConnectionNotReady";
  connection_last_probe_time_exceeded = "LastProbeTimeExceeded";
  connection_ready = "ConnectionReady";
  revision_check_disabled = "RevisionCheckDisabled";
  revision_check_operator_error = "OperatorError";
  revision_check_github_error = "GitHubError";
  not_up_to_date = "NotUpToDate";
  up_to_date = "UpToDate";
}

distinct : DistinctStatuses kubernetes_names
unfolding string_eq
distinct = ne_of_== "True" "False" refl

abbrev ready_condition : Condition
ready_condition = record {
  type = "Ready";
  status = "True";
  reason = "";
  message = "";
  last_transition_time = 3;
  last_updated_time = some 40;
}

abbrev deployment : List DeploymentCondition
deployment =
    record { type = "Available"; status = "True" }
    ∷ record { type = "ReplicaFailure"; status = "False" }
    ∷ record { type = "Progressing"; status = "False" }
    ∷ []

abbrev connected : CachedToolchainCluster String ℕ
connected = record {
  config = record {
    rest_config = "cfg";
    name = "m1";
    api_endpoint = "https://m1";
    operator_namespace = "operator";
    owner_cluster_name = "owner";
    labels = [];
  };
  client = some 7;
  cluster_status = ready_condition ∷ [];
}

validate-eq-is_true_example :
    (validate_component_condition_ready kubernetes_names (ready_condition ∷ []) ≡ none)
    ↔ (is_true kubernetes_names (ready_condition ∷ []) "Ready" ≡ true)
validate-eq-is_true_example = validate-eq-is_true kubernetes_names (ready_condition ∷ [])

validate-get_deployment_status_conditions_example :
    is_true kubernetes_names
      (get_deployment_status_conditions kubernetes_names reasons none deployment 9)
      "Ready"
    ≡ is_available kubernetes_names deployment
validate-get_deployment_status_conditions_example =
    validate-get_deployment_status_conditions kubernetes_names reasons none deployment 9 distinct

readiness-get_toolchain_cluster_conditions_example :
    readiness kubernetes_names (
      get_toolchain_cluster_conditions kubernetes_names reasons
        (λ d. "10s")
        (some connected)
        5
        10
        60)
    ≡ some (
        is_ready kubernetes_names (ready_condition ∷ [])
        && is_fresh (last_time kubernetes_names (ready_condition ∷ []) none) 15 60)
readiness-get_toolchain_cluster_conditions_example =
    readiness-get_toolchain_cluster_conditions kubernetes_names reasons (λ d. "10s") connected 5 10
      60 distinct ((λ p. refl), tt)

abbrev formats : Formats
formats = record { number = λ n. "n"; time = λ t. "t" }

abbrev repository : GithubRepository
repository = record {
  org = "codeready-toolchain";
  name = "host-operator";
  branch = "master";
  deployed_commit_sha = "1a2b";
}

abbrev get_commit : GithubRepository → CommitResponse
get_commit repo = record {
  error = none;
  status_code = 200;
  commit = some (record { sha = "3c4d"; date = 5 });
}

abbrev host : String
host = "host-operator"

abbrev check : (ℕ → ℕ) → Dict String ℕ → Condition × Dict String ℕ
check clock calls =
    check_deployed_version_is_up_to_date kubernetes_names reasons formats get_commit clock true
      "key" (ready_condition ∷ []) repository calls

abbrev late : ℕ → ℕ
late k = 2000000000000

check_deployed_version_is_up_to_date-IsDue_example :
    (IsAllowed true "key" (some 7) 2000000000000
      × (lookup host (check late ((host, 7) ∷ [])).1
          ≡ (if host == repository.name then some 2000000000000 else some 7)))
    ⊎ ((¬ IsAllowed true "key" (some 7) 2000000000000)
        × ((check late ((host, 7) ∷ [])).1 ≡ (host, 7) ∷ []))
unfolding lookup string_eq
check_deployed_version_is_up_to_date-IsDue_example =
    check_deployed_version_is_up_to_date-IsDue kubernetes_names reasons formats get_commit late true
      "key" (ready_condition ∷ []) repository ((host, 7) ∷ []) host

outdated : (check late []).0.reason ≡ "NotUpToDate"
unfolding check_deployed_version_is_up_to_date string_eq lookup nat_eq
outdated = refl

too_soon : (check late (("host-operator", 1999999999999) ∷ [])).0 ≡ ready_condition
unfolding check_deployed_version_is_up_to_date string_eq lookup nat_eq
    toolchain_common.Condition.find_condition_by_type
too_soon = refl

not_progressing :
    is_true kubernetes_names
      (get_deployment_status_conditions kubernetes_names reasons none deployment 9)
      "Ready"
    ≡ false
unfolding is_true toolchain_common.Condition.find_condition_by_type get_deployment_status_conditions
    string_eq
not_progressing = refl
