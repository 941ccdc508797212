-- ===== src/ApplyClient/Idempotence.antt =====
-- An application of pkg/client/client.go that succeeded is not sent again.
use toolchain_common.Base.{
  String, ◌≡◌, ◌≢◌, refl, sym, Bool, true, false, none, some, List, string_eq, nat_eq,
  if◌then◌else◌, Result, ok, err, wrapped, is_not_found, arith,
}
use toolchain_common.Base.Dict.{lookup, NodupKeys, lookup-insert, insert-NodupKeys}
use toolchain_common.ApplyClient.Objects.{
  Object, Client, ApplyObjectConfiguration, ApplyObjectOption,
  last_applied_configuration_annotation_key, new_apply_object_configuration, get_new_configuration,
  retain_cluster_ip,
}
use toolchain_common.ApplyClient.Apply.{
  Applied, result, create_obj, save, is_applied, to_update, send_update, apply_found,
  apply_configured, apply_object,
}
use toolchain_common.ApplyClient.Stored.{
  IsServer, HasConfiguration, create_obj_stores, of_stored, send_found_stores, is_applied_lem,
}

module _ {S W U : Type 0} (c : Client S W U) (server : IsServer c) where
  -- What a successful application leaves.
  abbrev Leaves : Applied S → Object U → String → Type 0
  Leaves r o configuration = r.error ≡ none → HasConfiguration c server r.cluster o configuration

  branch :
      (b : Bool) (r r' : Applied S) (o : Object U) (configuration : String)
      → Leaves r o configuration
      → (b ≡ false → Leaves r' o configuration)
      → Leaves (if b then r else r') o configuration
  branch true r r' o configuration yes_case no_case = yes_case
  branch false r r' o configuration yes_case no_case = no_case refl

  applied_branch :
      (b : Bool) (r' : Applied S) (s : S) (o : Object U) (configuration : String)
      → (b ≡ true → HasConfiguration c server s o configuration)
      → Leaves r' o configuration
      → Leaves (if b then result c false (none, s) else r') o configuration
  applied_branch true r' s o configuration yes_case no_case = λ done. yes_case refl
  applied_branch false r' s o configuration yes_case no_case = no_case

  apply_found_stores :
      (config : ApplyObjectConfiguration W) (o : Object U) (configuration : String)
      (found : Result (Object U)) (s : S)
      → c.get s o.kind o.namespace o.name ≡ found
      → NodupKeys o.annotations
      → lookup last_applied_configuration_annotation_key o.annotations ≡ some configuration
      → Leaves (apply_found c config o configuration found s) o configuration
  unfolding apply_found
  apply_found_stores config o configuration (err e) s got map saved =
      branch (is_not_found e)
        (result c true (create_obj c (record o { resource_version = "" }) config.owner s))
        (result c false (some (wrapped "unable to get the resource" e), s)) o configuration
        (λ done.
          of_stored c server (create_obj c (record o { resource_version = "" }) config.owner s).1
            (record o { resource_version = "" }) o configuration (refl, refl, refl) saved
            (create_obj_stores c server (record o { resource_version = "" }) config.owner s done))
        (λ failing done. ground arith)
  apply_found_stores config o configuration (ok existing) s got map saved =
      applied_branch (is_applied c config.force_update configuration existing)
        (send_update c existing.generation (retain_cluster_ip c (to_update c o existing) existing)
          s)
        s o configuration
        (λ same.
          (existing, got, is_applied_lem c server config.force_update configuration existing same))
        (λ done.
          send_found_stores c server o existing configuration s
            (server.get_place s o.kind o.namespace o.name existing got) map saved done)

  save_lem :
      (o : Object U)
      → NodupKeys o.annotations
      → NodupKeys (save c o).annotations
        × (lookup last_applied_configuration_annotation_key (save c o).annotations
            ≡ some (get_new_configuration c o))
  unfolding save
  save_lem o map = (
    insert-NodupKeys last_applied_configuration_annotation_key (get_new_configuration c o)
        o.annotations map,
    ground (
      arith,
      lookup-insert last_applied_configuration_annotation_key
          last_applied_configuration_annotation_key (get_new_configuration c o) o.annotations,
    ),
  )

  apply_configured_stores :
      (config : ApplyObjectConfiguration W) (o : Object U) (s : S)
      → config.save_configuration ≡ true
      → NodupKeys o.annotations
      → Leaves (apply_configured c config o s) o (get_new_configuration c o)
  unfolding apply_configured save
  apply_configured_stores config o s saving map = rw saving (
      apply_found_stores config (save c o) (get_new_configuration c o)
        (c.get s o.kind o.namespace o.name) s refl (save_lem o map).0 (save_lem o map).1)

  -- Nothing is sent for an object whose configuration is in its place.
  apply_configured_again :
      (config : ApplyObjectConfiguration W) (o : Object U) (s : S)
      → config.save_configuration ≡ true
      → config.force_update ≡ false
      → get_new_configuration c o ≢ ""
      → HasConfiguration c server s o (get_new_configuration c o)
      → apply_configured c config o s
        ≡ record { created_or_updated = false; error = none; cluster = s }
  unfolding apply_configured apply_found is_applied
  apply_configured_again config o s saving unforced content (x, got, saved) = ground arith

  error-apply_object :
      (options : List (ApplyObjectOption W)) (o : Object U) (s : S)
      → (apply_object c options o s).error ≡ none
      → ((apply_configured c (new_apply_object_configuration options) o s).error ≡ none)
        × ((apply_object c options o s).cluster
            ≡ (apply_configured c (new_apply_object_configuration options) o s).cluster)
  unfolding apply_object
  error-apply_object options o s done = ground arith

  apply_object_again :
      (options : List (ApplyObjectOption W)) (o : Object U) (s s' : S)
      → s ≡ s'
      → apply_configured c (new_apply_object_configuration options) o s
        ≡ record { created_or_updated = false; error = none; cluster = s }
      → apply_object c options o s'
        ≡ record { created_or_updated = false; error = none; cluster = s' }
  unfolding apply_object
  apply_object_again options o s s' same unchanged = rw (sym same, unchanged) refl

-- On an API server that keeps the annotations of what it accepts, when an object has been applied with
-- its configuration saved and without an error, then another application of it, not forced and with
-- its configuration saved, reports no change and no error and leaves the cluster as it is. The
-- configuration must not be the empty text.
pub apply_object_idempotent :
    {S W U : Type 0} (c : Client S W U)
    → IsServer c
    → (first later : List (ApplyObjectOption W)) (o : Object U) (s : S)
    → (new_apply_object_configuration first).save_configuration ≡ true
    → (new_apply_object_configuration later).save_configuration ≡ true
    → (new_apply_object_configuration later).force_update ≡ false
    → get_new_configuration c o ≢ ""
    → NodupKeys o.annotations
    → (apply_object c first o s).error ≡ none
    → apply_object c later o (apply_object c first o s).cluster ≡ record {
      created_or_updated = false;
      error = none;
      cluster = (apply_object c first o s).cluster;
    }
apply_object_idempotent c server first later o s saving saving_later unforced content map done =
    let s' = (apply_configured c (new_apply_object_configuration first) o s).cluster in
    let (fine, same) = error-apply_object c server first o s done in
    apply_object_again c server later o s' (apply_object c first o s).cluster (sym same) (
      apply_configured_again c server (new_apply_object_configuration later) o s' saving_later
        unforced content
        (apply_configured_stores c server (new_apply_object_configuration first) o s saving map
          fine))
