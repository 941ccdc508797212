-- ===== src/Controllers/Resources.antt =====
-- controllers/toolchainclusterresources: the reconciler that applies the objects of its templates; and the
-- functions of controllers/label_event_handler.go that map an object to requests.
use toolchain_common.Base.{
  String, Option, none, some, List, [], ◌∷◌, ◌==◌, string_eq, if◌then◌else◌, Error, failed,
}
use toolchain_common.Base.Dict.{lookup}
use toolchain_common.SsaClient.Client.{
  Object, Platform, SsaApplyObjectOption, new_ssa_apply_client, apply_all,
}

pub record Request : Type 0 where
  pub namespace : String
  pub name : String

module _ {U : Type 0} where
  unfoldable pub map_to_owner_by_label : String → String → Object U → List Request
  map_to_owner_by_label namespace label obj = elim (lookup label obj.labels) [
    | none ↦ []
    | some name ↦ record { namespace = namespace; name = name } ∷ []
  ]

  unfoldable pub map_to_controller_by_matching_label : String → String → Object U → List Request
  map_to_controller_by_matching_label label_key label_value obj =
      elim (lookup label_key obj.labels) [
        | none ↦ []
        | some found ↦
            (if label_value == found
              then record { namespace = obj.namespace; name = obj.name } ∷ []
              else [])
      ]

-- `templates` is a file system `F`, none for nil; `template_objects` is what the set-up has loaded from it.
pub record Reconciler (F U : Type 0) : Type 0 where
  pub templates : Option F
  pub field_manager : String
  pub template_objects : List (Object U)

abbrev pub resource_controller_label_value : String
resource_controller_label_value = "toolchaincluster-resources-controller"

abbrev pub provided : {W U : Type 0} → String → List (SsaApplyObjectOption W U)
provided provider_label_key =
    SsaApplyObjectOption.ensure_labels ((provider_label_key, resource_controller_label_value) ∷ [])
    ∷ []

unfoldable pub reconcile :
    {F S W U : Type 0} → Platform S W U → String → Reconciler F U → S → Option Error × S
unfolding apply_all
reconcile c provider_label_key r s = elim r.templates [
  | none ↦ (some (failed "no templates FS configured"), s)
  | some fs ↦
      apply_all c (new_ssa_apply_client r.field_manager) (provided provider_label_key)
        r.template_objects s
]
