-- ===== src/Resources/Workspace.antt =====
-- pkg/proxy/workspace.go. An option is a value of a data type, and `apply_option` is the function that it
-- stands for.
use toolchain_common.Base.{String, ◌<>◌, List, [], ◌∷◌}

-- `B` are the bindings.
pub record Workspace (B : Type 0) : Type 0 where
  pub kind : String
  pub api_version : String
  pub name : String
  pub resource_version : String
  pub uid : String
  pub generation : String
  pub creation_timestamp : String
  pub namespaces : List String
  pub owner : String
  pub role : String
  pub type : String
  pub available_roles : List String
  pub bindings : List B

pub record ObjectMeta : Type 0 where
  pub resource_version : String
  pub uid : String
  pub generation : String
  pub creation_timestamp : String

pub data WorkspaceOption (B : Type 0) : Type 0 where
  with_namespaces : List String → WorkspaceOption B
  with_owner : String → WorkspaceOption B
  with_role : String → WorkspaceOption B
  with_type : String → WorkspaceOption B
  with_available_roles : List String → WorkspaceOption B
  with_bindings : List B → WorkspaceOption B
  with_object_meta_from : ObjectMeta → WorkspaceOption B

module _ {B : Type 0} where
  unfoldable pub apply_option : WorkspaceOption B → Workspace B → Workspace B
  apply_option (with_namespaces namespaces) w = record w { namespaces = namespaces }
  apply_option (with_owner owner) w = record w { owner = owner }
  apply_option (with_role role) w = record w { role = role }
  apply_option (with_type type) w = record w { type = type }
  apply_option (with_available_roles roles) w = record w { available_roles = roles }
  apply_option (with_bindings bindings) w = record w { bindings = bindings }
  apply_option (with_object_meta_from meta) w = record w {
    resource_version = meta.resource_version;
    uid = meta.uid;
    generation = meta.generation;
    creation_timestamp = meta.creation_timestamp;
  }

  unfoldable pub apply_options : List (WorkspaceOption B) → Workspace B → Workspace B
  unfolding apply_option
  apply_options [] w = w
  apply_options (option ∷ options) w = apply_options options (apply_option option w)

  -- The prefix of the labels is a constant of the API module.
  unfoldable pub new_workspace : String → String → List (WorkspaceOption B) → Workspace B
  unfolding apply_options
  new_workspace label_key_prefix name options = apply_options options (record {
    kind = "Workspace";
    api_version = label_key_prefix <> "v1alpha1";
    name = name;
    resource_version = "";
    uid = "";
    generation = "";
    creation_timestamp = "";
    namespaces = [];
    owner = "";
    role = "";
    type = "";
    available_roles = [];
    bindings = [];
  })
