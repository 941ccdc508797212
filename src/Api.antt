-- ===== src/Api.antt =====
-- The constants of codeready-toolchain/api and of Kubernetes that the code names. They are not
-- declared in this repository, so they are a parameter; what the code relies on is that names with
-- different meanings differ.
use toolchain_common.Base.{String, ◌≢◌}

pub record ConditionNames : Type 0 where
  -- toolchainv1alpha1.ConditionReady
  pub ready : String
  -- corev1.ConditionTrue and corev1.ConditionFalse
  pub status_true : String
  pub status_false : String

-- The two statuses are told apart.
abbrev pub DistinctStatuses : ConditionNames → Type 0
DistinctStatuses names = names.status_true ≢ names.status_false

abbrev pub kubernetes_names : ConditionNames
kubernetes_names = record { ready = "Ready"; status_true = "True"; status_false = "False" }
