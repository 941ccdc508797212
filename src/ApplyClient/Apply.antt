-- ===== src/ApplyClient/Apply.antt =====
-- The applications of pkg/client/client.go. Each call gives whether the object was created or updated,
-- the error, and the cluster.
use toolchain_common.Base.{
  ℕ, String, ◌<>◌, Bool, true, false, not, ◌&&◌, ◌||◌, Option, none, some, List, [], ◌∷◌, ◌==◌,
  string_eq, nat_eq, if◌then◌else◌, Result, ok, err, Error, wrapped, is_not_found,
}
use toolchain_common.Base.Dict.{Dict, lookup, insert}
use toolchain_common.ApplyClient.Objects.{
  Object, Client, ApplyObjectConfiguration, ApplyObjectOption,
  last_applied_configuration_annotation_key, new_apply_object_configuration, merge_labels,
  merge_annotations, get_new_configuration, retain_cluster_ip,
}

pub record Applied (S : Type 0) : Type 0 where
  pub created_or_updated : Bool
  pub error : Option Error
  pub cluster : S

module _ {S W U : Type 0} (c : Client S W U) where
  abbrev pub result : Bool → Option Error × S → Applied S
  result changed (e, s) = record { created_or_updated = changed; error = e; cluster = s }

  unfoldable pub create_owned : Result (Object U) → S → Option Error × S
  create_owned (err e) s = (some (wrapped "unable to set controller references" e), s)
  create_owned (ok obj) s = c.create obj s

  unfoldable pub create_obj : Object U → Option W → S → Option Error × S
  unfolding create_owned
  create_obj new_resource none s = c.create new_resource s
  create_obj new_resource (some owner) s =
      create_owned (c.set_controller_reference owner new_resource) s

  -- The object with its configuration as an annotation.
  unfoldable pub save : Object U → Object U
  unfolding get_new_configuration
  save obj = record obj {
    annotations =
        insert last_applied_configuration_annotation_key (get_new_configuration c obj)
          obj.annotations;
  }

  -- The test that nothing has to be sent: the configuration that was applied last is the new one.
  unfoldable pub is_applied : Bool → String → Object U → Bool
  is_applied force_update new_configuration existing =
      not force_update
      && (elim (lookup last_applied_configuration_annotation_key existing.annotations) [
        | none ↦ false
        | some last_applied ↦ not (new_configuration == "") && new_configuration == last_applied
      ])

  -- The object that is sent, before its cluster IP: a ServiceAccount is the existing one, with the
  -- new annotations and labels.
  unfoldable pub to_update : Object U → Object U → Object U
  unfolding merge_labels merge_annotations
  to_update obj existing =
      if c.equal_fold obj.kind "ServiceAccount"
      then merge_labels (merge_annotations existing obj.annotations) obj.labels
      else record obj { resource_version = existing.resource_version }

  -- `Update` has filled in the generation.
  unfoldable pub updated : ℕ → Result (Object U) × S → Applied S
  updated original_generation (err e, s) =
      result false (some (wrapped "unable to update the resource" e), s)
  updated original_generation (ok obj, s) =
      result (not (original_generation == obj.generation)) (none, s)

  unfoldable pub send_update : ℕ → Result (Object U) → S → Applied S
  unfolding updated
  send_update original_generation (err e) s = result false (some e, s)
  send_update original_generation (ok obj) s = updated original_generation (c.update obj s)

  unfoldable pub apply_found :
      ApplyObjectConfiguration W → Object U → String → Result (Object U) → S → Applied S
  unfolding create_obj is_applied to_update retain_cluster_ip send_update
  apply_found config obj new_configuration (err e) s =
      if is_not_found e
      then result true (create_obj (record obj { resource_version = "" }) config.owner s)
      else result false (some (wrapped "unable to get the resource" e), s)
  apply_found config obj new_configuration (ok existing) s =
      if is_applied config.force_update new_configuration existing
      then result false (none, s)
      else send_update existing.generation (retain_cluster_ip c (to_update obj existing) existing) s

  -- `applyObject`, for a configuration.
  unfoldable pub apply_configured : ApplyObjectConfiguration W → Object U → S → Applied S
  unfolding save get_new_configuration apply_found
  apply_configured config obj s =
      let found = c.get s obj.kind obj.namespace obj.name in
      if config.save_configuration
      then apply_found config (save obj) (get_new_configuration c obj) found s
      else apply_found config obj "" found s

  abbrev wrap : String → Applied S → Applied S
  wrap message r = elim r.error [
    | none ↦ r
    | some e ↦ record r { error = some (wrapped message e) }
  ]

  unfoldable pub apply_object : List (ApplyObjectOption W) → Object U → S → Applied S
  unfolding new_apply_object_configuration apply_configured
  apply_object options obj s =
      wrap ("unable to create resource of kind: " <> (obj.kind <> (", version: " <> obj.version)))
        (apply_configured (new_apply_object_configuration options) obj s)

  -- What is left after one object of `Apply`, with the rest of the loop as an argument.
  abbrev pub continue_apply : String → Bool → Applied S → (Bool → S → Applied S) → Applied S
  continue_apply message changed r rest = elim r.error [
    | none ↦ rest (changed || r.created_or_updated) r.cluster
    | some e ↦ record {
      created_or_updated = false;
      error = some (wrapped message e);
      cluster = r.cluster;
    }
  ]

  unfoldable pub apply_loop : Dict String String → List (Object U) → Bool → S → Applied S
  unfolding apply_object merge_labels
  apply_loop new_labels [] changed s = result changed (none, s)
  apply_loop new_labels (obj ∷ objects) changed s =
      continue_apply
        ("unable to create resource of kind: " <> (obj.kind <> (", version: " <> obj.version)))
        changed
        (apply_object (ApplyObjectOption.force_update true ∷ []) (merge_labels obj new_labels) s)
        (λ changed' s'. apply_loop new_labels objects changed' s')

  unfoldable pub apply : List (Object U) → Dict String String → S → Applied S
  unfolding apply_loop
  apply objects new_labels s = apply_loop new_labels objects false s

  unfoldable pub apply_unstructured : List (Object U) → Dict String String → S → Option Error × S
  unfolding apply_object merge_labels
  apply_unstructured [] new_labels s = (none, s)
  apply_unstructured (obj ∷ objects) new_labels s =
      let r =
        apply_object (ApplyObjectOption.save_configuration false ∷ []) (merge_labels obj new_labels)
          s in
      let rest = apply_unstructured objects new_labels r.cluster in
      elim r.error [ none ↦ rest | some e ↦ (some e, r.cluster) ]
