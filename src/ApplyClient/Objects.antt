-- ===== src/ApplyClient/Objects.antt =====
-- Objects of pkg/client/client.go, the options of an application, and what it asks of its libraries.
use toolchain_common.Base.{
  ℕ, String, Bool, true, false, Option, none, some, List, [], ◌∷◌, ◌==◌, string_eq, if◌then◌else◌,
  Result, ok, err, Error,
}
use toolchain_common.Base.Dict.{Dict, insert_all, erase}

-- The types that the code tells apart, with the rest of their content: a typed Service and its
-- `spec.clusterIP`, an unstructured object, and all others.
pub data Body (U : Type 0) : Type 0 where
  service : String → U → Body U
  unstructured : U → Body U
  other : U → Body U

pub record Object (U : Type 0) : Type 0 where
  pub kind : String
  pub version : String
  pub namespace : String
  pub name : String
  pub labels : Dict String String
  pub annotations : Dict String String
  pub resource_version : String
  pub generation : ℕ
  pub body : Body U

-- The controller-runtime client over a cluster `S` (`Get`, `Create`, and `Update`, which fills in the
-- object), `SetControllerReference` for an owner `W`, `strings.EqualFold`, `json.Marshal` and the `%v`
-- format of objects, and the two functions of the unstructured package for `spec.clusterIP`.
pub record Client (S W U : Type 0) : Type 0 where
  pub get : S → String → String → String → Result (Object U)
  pub create : Object U → S → Option Error × S
  pub update : Object U → S → Result (Object U) × S
  pub set_controller_reference : W → Object U → Result (Object U)
  pub equal_fold : String → String → Bool
  pub marshal : Object U → Option String
  pub format : Object U → String
  pub nested_cluster_ip : U → Result (Option String)
  pub set_nested_cluster_ip : U → String → Result U

abbrev pub last_applied_configuration_annotation_key : String
last_applied_configuration_annotation_key = "toolchain.dev.openshift.com/last-applied-configuration"

pub record ApplyObjectConfiguration (W : Type 0) : Type 0 where
  pub owner : Option W
  pub force_update : Bool
  pub save_configuration : Bool

pub data ApplyObjectOption (W : Type 0) : Type 0 where
  set_owner : Option W → ApplyObjectOption W
  force_update : Bool → ApplyObjectOption W
  save_configuration : Bool → ApplyObjectOption W

module _ {W : Type 0} where
  unfoldable pub apply_option :
      ApplyObjectOption W → ApplyObjectConfiguration W → ApplyObjectConfiguration W
  apply_option (ApplyObjectOption.set_owner owner) config = record config { owner = owner }
  apply_option (ApplyObjectOption.force_update force) config = record config {
    force_update = force;
  }
  apply_option (ApplyObjectOption.save_configuration save) config = record config {
    save_configuration = save;
  }

  unfoldable pub apply_all :
      List (ApplyObjectOption W) → ApplyObjectConfiguration W → ApplyObjectConfiguration W
  unfolding apply_option
  apply_all [] config = config
  apply_all (option ∷ options) config = apply_all options (apply_option option config)

  unfoldable pub new_apply_object_configuration :
      List (ApplyObjectOption W) → ApplyObjectConfiguration W
  unfolding apply_all
  new_apply_object_configuration options =
      apply_all options (record { owner = none; force_update = false; save_configuration = true })

module _ {U : Type 0} where
  unfoldable pub merge_labels : Object U → Dict String String → Object U
  merge_labels obj new_labels = record obj { labels = insert_all new_labels obj.labels }

  unfoldable pub merge_annotations : Object U → Dict String String → Object U
  merge_annotations obj new_annotations = record obj {
    annotations = insert_all new_annotations obj.annotations;
  }

  unfoldable pub remove_annotation : Object U → String → Object U
  remove_annotation new_resource key = record new_resource {
    annotations = erase key new_resource.annotations;
  }

module _ {S W U : Type 0} (c : Client S W U) where
  -- The object as JSON without the annotation that holds its configuration, or as text.
  unfoldable pub get_new_configuration : Object U → String
  unfolding remove_annotation
  get_new_configuration new_resource =
      let copy_resource =
        remove_annotation new_resource last_applied_configuration_annotation_key in
      elim (c.marshal copy_resource) [ none ↦ c.format copy_resource | some json ↦ json ]

  -- `clusterIP`: none if it is not found.
  unfoldable pub cluster_ip : Body U → Result (Option String)
  cluster_ip (Body.service ip u) = ok (if ip == "" then none else some ip)
  cluster_ip (Body.unstructured u) = c.nested_cluster_ip u
  cluster_ip (Body.other u) = ok none

  abbrev nested : Result U → Result (Body U)
  nested (ok u) = ok (Body.unstructured u)
  nested (err e) = err e

  unfoldable pub set_cluster_ip : Body U → String → Result (Body U)
  set_cluster_ip (Body.service _ u) ip = ok (Body.service ip u)
  set_cluster_ip (Body.unstructured u) ip = nested (c.set_nested_cluster_ip u ip)
  set_cluster_ip (Body.other u) ip = ok (Body.other u)

  abbrev pub with_body : Object U → Result (Body U) → Result (Object U)
  with_body obj (ok body) = ok (record obj { body = body })
  with_body obj (err e) = err e

  unfoldable pub retain_found : Object U → Result (Option String) → Result (Object U)
  unfolding set_cluster_ip
  retain_found new_resource (err e) = err e
  retain_found new_resource (ok none) = ok new_resource
  retain_found new_resource (ok (some ip)) =
      with_body new_resource (set_cluster_ip new_resource.body ip)

  unfoldable pub retain_cluster_ip : Object U → Object U → Result (Object U)
  unfolding cluster_ip retain_found
  retain_cluster_ip new_resource existing = retain_found new_resource (cluster_ip existing.body)
