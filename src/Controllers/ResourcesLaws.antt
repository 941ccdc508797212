-- ===== src/Controllers/ResourcesLaws.antt =====
-- What the reconciler of controllers/toolchainclusterresources applies comes back to it.
use toolchain_common.Base.{
  String, ◌≡◌, refl, ap, true, Option, none, some, List, [], ◌∷◌, ==_refl, string_eq, Error, arith,
  is_some,
}
use toolchain_common.Base.Dict.{lookup, lookup-nil, NodupKeys}
use toolchain_common.SsaClient.Client.{
  Object, Platform, SsaApplyClient, new_ssa_apply_client, new_ssa_apply_object_configuration,
  apply_object, continue, apply_all, apply_options, apply_option,
}
use toolchain_common.SsaClient.Patches.{IsSent, IsPrepared, apply_object-IsSent}
use toolchain_common.Controllers.Resources.{
  map_to_controller_by_matching_label, Reconciler, resource_controller_label_value, provided,
  reconcile,
}

module _ {S W U : Type 0} (c : Platform S W U) (client : SsaApplyClient) (key : String) where
  abbrev Sent : Object U → S → S → Type 0
  Sent obj s s' =
      IsSent c client (new_ssa_apply_object_configuration (provided key)) obj s (none, s')

  -- Each object was sent, from the cluster that the one before left, and an event on what was sent maps to a
  -- request for it.
  abbrev pub AllSent : List (Object U) → S → S → Type 0
  AllSent [] s s' = s ≡ s'
  AllSent (obj ∷ objs) s s' =
      (between : S) × (sent : Sent obj s between) × (map_to_controller_by_matching_label key
          resource_controller_label_value sent.0
        ≡ record { namespace = sent.0.namespace; name = sent.0.name } ∷ [])
      × AllSent objs between s'

  labels_once :
      NodupKeys (new_ssa_apply_object_configuration {W = W} {U = U} (provided key)).new_labels
  unfolding new_ssa_apply_object_configuration apply_options apply_option
  labels_once = (lookup-nil key, tt)

  mapped_back :
      (given obj : Object U)
      → IsPrepared c (new_ssa_apply_object_configuration (provided key)) given obj
      → map_to_controller_by_matching_label key resource_controller_label_value obj
        ≡ record { namespace = obj.namespace; name = obj.name } ∷ []
  unfolding map_to_controller_by_matching_label new_ssa_apply_object_configuration apply_options
      apply_option lookup
  mapped_back given obj prepared = ground (
    arith,
    prepared.labelled key resource_controller_label_value,
    ==_refl key,
    ==_refl resource_controller_label_value,
  )

  apply_all-AllSent :
      (objs : List (Object U)) (s s' : S)
      → apply_all c client (provided key) objs s ≡ (none, s')
      → AllSent objs s s'
  unfolding apply_all
  apply_all-AllSent [] s s' done = ap (λ r. r.1) done
  apply_all-AllSent (obj ∷ objs) s s' done =
      by_first (λ between rest. apply_all-AllSent objs between s' rest)
        (apply_object c client (provided key) obj s)
        (λ ok_first. apply_object-IsSent c client (provided key) obj s labels_once ok_first) done
    where
      by_first :
          ((between : S)
            → apply_all c client (provided key) objs between ≡ (none, s')
            → AllSent objs between s')
          → (r : Option Error × S)
          → (r.0 ≡ none
              → IsSent c client (new_ssa_apply_object_configuration (provided key)) obj s r)
          → continue c r (λ between. apply_all c client (provided key) objs between) ≡ (none, s')
          → AllSent (obj ∷ objs) s s'
      by_first ih (some e, between) sends done = ground arith
      by_first ih (none, between) sends done =
          let sent = sends refl in (between, sent, mapped_back obj sent.0 sent.2, ih between done)

-- When the reconciler returns no error, it has been given a file system, and each object loaded from it was
-- configured, prepared and sent by server-side apply with the field manager, one after the other.
-- What was sent carries the provider label, so that an event on it is mapped to a request for the
-- same name and namespace.
pub reconcile-AllSent :
    {F S W U : Type 0} (c : Platform S W U) (key : String) (r : Reconciler F U) (s s' : S)
    → reconcile c key r s ≡ (none, s')
    → (is_some r.templates ≡ true)
      × AllSent c (new_ssa_apply_client r.field_manager) key r.template_objects s s'
unfolding reconcile
reconcile-AllSent {F} c key r s s' done = by_templates r.templates done
  where
    by_templates :
        (templates : Option F)
        → reconcile c key (record r { templates = templates }) s ≡ (none, s')
        → (is_some templates ≡ true)
          × AllSent c (new_ssa_apply_client r.field_manager) key r.template_objects s s'
    by_templates none done = ground arith
    by_templates (some fs) done = (
      refl,
      apply_all-AllSent c (new_ssa_apply_client r.field_manager) key r.template_objects s s' done,
    )
