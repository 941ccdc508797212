-- ===== src/SsaClient/Client.antt =====
-- The options, the objects and the operations of pkg/client/ssa_client.go. Each operation that sends
-- something gives its error and the cluster.
use toolchain_common.Base.{
  String, ◌<>◌, Bool, true, false, not, ◌&&◌, ◌||◌, Option, none, some, List, [], ◌∷◌, ◌==◌,
  string_eq, if◌then◌else◌, Result, ok, err, Error, wrapped, is_not_found, chars, of_chars,
  same_char,
}
use toolchain_common.Base.Dict.{Dict, insert_all}
use Prim.Native.Char.{Char}

pub record ManagedField : Type 0 where
  pub manager : String
  pub operation : String
  pub subresource : String

pub record GroupVersionKind : Type 0 where
  pub group : String
  pub version : String
  pub kind : String

-- `gvk` is none where it is empty; `body` is all that the code does not read.
pub record Object (U : Type 0) : Type 0 where
  pub gvk : Option GroupVersionKind
  pub namespace : String
  pub name : String
  pub labels : Dict String String
  pub managed_fields : List ManagedField
  pub body : U

-- The controller-runtime client over a cluster `S`: `Get`, which finds an object by another one's kind
-- and place, `Update`, and `Patch` with the Apply option, forced ownership and a field owner. With it
-- `SetControllerReference` for an owner `W`, `GVKForObject`, `UpgradeManagedFields`, client-go's user
-- agent, the constant metav1.ManagedFieldsOperationApply, and the text of a kind.
pub record Platform (S W U : Type 0) : Type 0 where
  pub get : S → Object U → Result (Object U)
  pub update : Object U → S → Option Error × S
  pub patch : String → Object U → S → Option Error × S
  pub set_controller_reference : W → Object U → Result (Object U)
  pub gvk_for_object : Object U → Result GroupVersionKind
  pub upgrade_managed_fields : Object U → String → String → Result (Object U)
  pub default_user_agent : String
  pub apply_operation : String
  pub kind_text : Object U → String

pub record SsaApplyClient : Type 0 where
  pub field_owner : String
  pub migrate_ssa_by_default : Bool
  pub non_ssa_field_owner : String

abbrev pub new_ssa_apply_client : String → SsaApplyClient
new_ssa_apply_client field_owner = record {
  field_owner = field_owner;
  migrate_ssa_by_default = true;
  non_ssa_field_owner = "";
}

pub data MigrateSsa : Type 0 where
  not_specified migrate_yes migrate_no : MigrateSsa

pub record SsaApplyObjectConfiguration (W U : Type 0) : Type 0 where
  pub owner : Option W
  pub new_labels : Dict String String
  pub skip_if : Option (Object U → Bool)
  pub migrate_ssa : MigrateSsa

pub data SsaApplyObjectOption (W U : Type 0) : Type 0 where
  set_owner_reference : Option W → SsaApplyObjectOption W U
  skip_if : (Object U → Bool) → SsaApplyObjectOption W U
  ensure_labels : Dict String String → SsaApplyObjectOption W U
  migrate_ssa : Bool → SsaApplyObjectOption W U

module _ {W U : Type 0} where
  unfoldable pub apply_option :
      SsaApplyObjectOption W U → SsaApplyObjectConfiguration W U → SsaApplyObjectConfiguration W U
  apply_option (SsaApplyObjectOption.set_owner_reference owner) config = record config {
    owner = owner;
  }
  apply_option (SsaApplyObjectOption.skip_if test) config = record config { skip_if = some test }
  apply_option (SsaApplyObjectOption.ensure_labels labels) config = record config {
    new_labels = labels;
  }
  apply_option (SsaApplyObjectOption.migrate_ssa value) config = record config {
    migrate_ssa = if value then migrate_yes else migrate_no;
  }

  unfoldable pub apply_options :
      List (SsaApplyObjectOption W U)
      → SsaApplyObjectConfiguration W U
      → SsaApplyObjectConfiguration W U
  unfolding apply_option
  apply_options [] config = config
  apply_options (option ∷ options) config = apply_options options (apply_option option config)

  unfoldable pub new_ssa_apply_object_configuration :
      List (SsaApplyObjectOption W U) → SsaApplyObjectConfiguration W U
  unfolding apply_options
  new_ssa_apply_object_configuration options =
      apply_options options
        (record { owner = none; new_labels = []; skip_if = none; migrate_ssa = not_specified })

-- strings.Split(s, "/")[0]
unfoldable pub before_slash : List Char → List Char
before_slash [] = []
before_slash (c ∷ s) = let rest = before_slash s in if same_char c "/" then [] else c ∷ rest

module _ {S W U : Type 0} (c : Platform S W U) where
  unfoldable pub compose_error : Object U → Error → Error
  compose_error obj e =
      wrapped
        ("unable to patch '"
          <> (c.kind_text obj
              <> ("' called '" <> (obj.name <> ("' in namespace '" <> (obj.namespace <> "'"))))))
        e

  -- The labels that are merged into an object with its owner, if there is one.
  unfoldable pub with_labels : Dict String String → Result (Object U) → Result (Object U)
  with_labels new_labels (err e) = err e
  with_labels new_labels (ok obj) = ok (record obj { labels = insert_all new_labels obj.labels })

  -- The method `Configure` of a configuration.
  unfoldable pub configure : SsaApplyObjectConfiguration W U → Object U → Result (Object U)
  unfolding with_labels
  configure config obj = elim config.owner [
    | none ↦ with_labels config.new_labels (ok obj)
    | some owner ↦ with_labels config.new_labels (c.set_controller_reference owner obj)
  ]

  unfoldable pub with_gvk : Object U → Result GroupVersionKind → Result (Object U)
  with_gvk obj (err e) = err e
  with_gvk obj (ok gvk) = ok (record obj { gvk = some gvk })

  unfoldable pub ensure_gvk : Object U → Result (Object U)
  unfolding with_gvk
  ensure_gvk obj = elim obj.gvk [ some gvk ↦ ok obj | none ↦ with_gvk obj (c.gvk_for_object obj) ]

  unfoldable pub prepare_for_ssa : Object U → Result (Object U)
  unfolding ensure_gvk
  prepare_for_ssa obj = ensure_gvk (record obj { managed_fields = [] })

  unfoldable pub is_ssa_migration_needed : List ManagedField → String → Bool
  is_ssa_migration_needed [] expected_owner = false
  is_ssa_migration_needed (mf ∷ fields) expected_owner =
      (mf.manager == expected_owner && not (mf.operation == c.apply_operation))
      || is_ssa_migration_needed fields expected_owner

  unfoldable pub update_upgraded : Result (Object U) → S → Option Error × S
  update_upgraded (err e) s = (some e, s)
  update_upgraded (ok obj) s = c.update obj s

  unfoldable pub migrate_to_ssa : Object U → String → String → S → Option Error × S
  unfolding update_upgraded
  migrate_to_ssa obj old_field_owner new_field_owner s =
      update_upgraded (c.upgrade_managed_fields obj old_field_owner new_field_owner) s

  unfoldable pub old_field_owner : SsaApplyClient → String
  unfolding before_slash
  old_field_owner client =
      if client.non_ssa_field_owner == ""
      then of_chars (before_slash (chars c.default_user_agent))
      else client.non_ssa_field_owner

  abbrev pub wrap_error : String → Option Error × S → Option Error × S
  wrap_error message (none, s) = (none, s)
  wrap_error message (some e, s) = (some (wrapped message e), s)

  -- `migrateSSA`, with the object that `Get` gives.
  unfoldable pub migrate_found : SsaApplyClient → Result (Object U) → S → Option Error × S
  unfolding is_ssa_migration_needed migrate_to_ssa old_field_owner
  migrate_found client (err e) s = if is_not_found e then (none, s) else (
    some (wrapped "failed to get the object from the cluster while migrating managed fields" e),
    s,
  )
  migrate_found client (ok orig) s =
      if is_ssa_migration_needed orig.managed_fields (old_field_owner client)
      then wrap_error "failed to migrate the managed fields"
          (migrate_to_ssa orig (old_field_owner client) client.field_owner s)
      else (none, s)

  unfoldable pub migrate_object : SsaApplyClient → Object U → S → Option Error × S
  unfolding migrate_found
  migrate_object client obj s = migrate_found client (c.get s obj) s

  unfoldable pub migrates : SsaApplyClient → MigrateSsa → Bool
  migrates client migrate_yes = true
  migrates client migrate_no = false
  migrates client not_specified = client.migrate_ssa_by_default

  abbrev pub compose : Object U → Option Error × S → Option Error × S
  compose obj (none, s) = (none, s)
  compose obj (some e, s) = (some (compose_error obj e), s)

  abbrev pub is_skipped : Option (Object U → Bool) → Object U → Bool
  is_skipped none obj = false
  is_skipped (some test) obj = test obj

  -- The end of `ApplyObject`, behind the migration.
  unfoldable pub patch_migrated :
      SsaApplyClient
      → SsaApplyObjectConfiguration W U
      → Object U
      → Option Error × S
      → Option Error × S
  unfolding compose_error
  patch_migrated client config obj (some e, s) = (some (compose_error obj e), s)
  patch_migrated client config obj (none, s) =
      if is_skipped config.skip_if obj
      then (none, s)
      else compose obj (c.patch client.field_owner obj s)

  unfoldable pub apply_prepared :
      SsaApplyClient
      → SsaApplyObjectConfiguration W U
      → Object U
      → Result (Object U)
      → S
      → Option Error × S
  unfolding patch_migrated migrate_object migrates compose_error
  apply_prepared client config configured (err e) s =
      (some (compose_error configured (wrapped "failed to prepare the object for SSA" e)), s)
  apply_prepared client config configured (ok obj) s =
      if migrates client config.migrate_ssa
      then patch_migrated client config obj (migrate_object client obj s)
      else patch_migrated client config obj (none, s)

  unfoldable pub apply_configured :
      SsaApplyClient
      → SsaApplyObjectConfiguration W U
      → Object U
      → Result (Object U)
      → S
      → Option Error × S
  unfolding apply_prepared prepare_for_ssa compose_error
  apply_configured client config obj (err e) s =
      (some (compose_error obj (wrapped "failed to configure the apply function" e)), s)
  apply_configured client config obj (ok configured) s =
      apply_prepared client config configured (prepare_for_ssa configured) s

  unfoldable pub apply_object :
      SsaApplyClient → List (SsaApplyObjectOption W U) → Object U → S → Option Error × S
  unfolding new_ssa_apply_object_configuration configure apply_configured
  apply_object client options obj s =
      let config = new_ssa_apply_object_configuration options in
      apply_configured client config obj (configure config obj) s

  -- What is left of the loop behind one object.
  abbrev pub continue : Option Error × S → (S → Option Error × S) → Option Error × S
  continue (some e, s) rest = (some e, s)
  continue (none, s) rest = rest s

  -- `ApplyAll`, which `Apply` calls.
  unfoldable pub apply_all :
      SsaApplyClient → List (SsaApplyObjectOption W U) → List (Object U) → S → Option Error × S
  unfolding apply_object
  apply_all client options [] s = (none, s)
  apply_all client options (obj ∷ objects) s =
      continue (apply_object client options obj s) (λ s'. apply_all client options objects s')
