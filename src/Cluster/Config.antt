-- ===== src/Cluster/Config.antt =====
-- `NewClusterConfig` of pkg/cluster/service.go: from a ToolchainCluster and its Secret to a
-- configuration. The API server and client-go are parameters.
use toolchain_common.Base.{
  ℕ, String, Option, none, some, List, [], ◌∷◌, ◌==◌, ◌<>◌, string_eq, if◌then◌else◌, Result, ok,
  err, failed, wrapped,
}
use toolchain_common.Base.Dict.{Dict, lookup}
use toolchain_common.Condition.{Condition}
use toolchain_common.Cluster.Cache.{ClusterConfig}

pub record ToolchainCluster : Type 0 where
  pub namespace : String
  pub name : String
  pub labels : Dict String String
  pub secret_ref_name : String
  pub conditions : List Condition

-- What client-go and the API server do: `get_secret` gets the data of a Secret by its namespace and
-- name, `load` is `clientcmd.Load` with the default client configuration, `client_config` and
-- `config_namespace` are the two methods of that, and the last two read and write a rest.Config.
pub record Kube (R K : Type 0) : Type 0 where
  pub get_secret : String → String → Result (Dict String String)
  pub load : String → Result K
  pub client_config : K → Result R
  pub config_namespace : K → Result String
  pub host : R → String
  pub set_timeout : ℕ → R → R

-- A missing key of a map reads as the zero value.
abbrev pub or_empty : Option String → String
or_empty none = ""
or_empty (some s) = s

abbrev pub label_owner_cluster_name : String
label_owner_cluster_name = "ownerClusterName"

infixl 5 ◌>>=◌
abbrev pub ◌>>=◌ {ℓ κ} : {A : Type ℓ} {B : Type κ} → Result A → (A → Result B) → Result B
ok a >>= f = f a
err e >>= f = err e

-- `errors.Wrap` where there is an error.
abbrev pub wrap {ℓ} : {A : Type ℓ} → String → Result A → Result A
wrap text (ok a) = ok a
wrap text (err e) = err (wrapped text e)

module _ {R K : Type 0} (kube : Kube R K) where
  unfoldable pub load_config_from_kube_config :
      ToolchainCluster → Dict String String → ℕ → Result (ClusterConfig R)
  load_config_from_kube_config cluster secret timeout = do
    cfg ← kube.load (or_empty (lookup "kubeconfig" secret))
    loaded ← kube.client_config cfg
    let rest_cfg = kube.set_timeout timeout loaded
    operator_namespace ←
        wrap "could not determine the operator namespace" (kube.config_namespace cfg)
    ok (record {
      rest_config = rest_cfg;
      name = cluster.name;
      api_endpoint = kube.host rest_cfg;
      operator_namespace = operator_namespace;
      owner_cluster_name = or_empty (lookup label_owner_cluster_name cluster.labels);
      labels = cluster.labels;
    })

  unfoldable pub new_cluster_config : ToolchainCluster → ℕ → Result (ClusterConfig R)
  unfolding load_config_from_kube_config
  new_cluster_config cluster timeout =
      if cluster.secret_ref_name == ""
      then err (failed ("cluster " <> (cluster.name <> " does not have a secret name")))
      else do
        secret ←
            wrap "unable to get secret" (kube.get_secret cluster.namespace cluster.secret_ref_name)
        load_config_from_kube_config cluster secret timeout

  -- `ListToolchainClusterConfigs`: the loop over the listed items, and the listing.
  unfoldable pub configs_of : List ToolchainCluster → ℕ → Result (List (ClusterConfig R))
  configs_of [] timeout = ok []
  configs_of (cluster ∷ rest) timeout =
      let configs = configs_of rest timeout in
      do config ← new_cluster_config cluster timeout; more ← configs; ok (config ∷ more)

  unfoldable pub list_toolchain_cluster_configs :
      (String → Result (List ToolchainCluster)) → String → ℕ → Result (List (ClusterConfig R))
  unfolding configs_of
  list_toolchain_cluster_configs list namespace timeout = do
    clusters ← list namespace
    configs_of clusters timeout
