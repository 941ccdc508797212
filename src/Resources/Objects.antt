-- ===== src/Resources/Objects.antt =====
-- pkg/client/object.go: objects sorted by name. `sort.Strings` is a parameter.
use toolchain_common.Base.{
  String, ◌<>◌, Bool, ◌&&◌, Option, none, some, List, [], ◌∷◌, map, ◌==◌, string_eq, if◌then◌else◌,
}

pub record GroupVersionKind : Type 0 where
  pub group : String
  pub version : String
  pub kind : String

-- `body` is what the code does not read.
pub record Object (U : Type 0) : Type 0 where
  pub gvk : GroupVersionKind
  pub namespace : String
  pub name : String
  pub body : U

module _ {U : Type 0} where
  -- fmt.Sprintf("%s,%s", object.GetNamespace(), object.GetName())
  unfoldable pub name_key : Object U → String
  name_key object = object.namespace <> ("," <> object.name)

  -- The inner loop: the first object of a name, nil if there is none.
  unfoldable pub first_named : String → List (Object U) → Option (Object U)
  unfolding name_key
  first_named name [] = none
  first_named name (object ∷ objects) =
      if name_key object == name then some object else first_named name objects

  unfoldable pub sort_objects_by_name :
      (List String → List String) → List (Object U) → List (Option (Object U))
  unfolding first_named name_key
  sort_objects_by_name sort_strings objects =
      map (λ name. first_named name objects) (sort_strings (map name_key objects))

  unfoldable pub same_gvk_and_name : Object U → Object U → Bool
  same_gvk_and_name a b =
      (a.gvk.group == b.gvk.group && (a.gvk.version == b.gvk.version && a.gvk.kind == b.gvk.kind))
      && a.name == b.name
