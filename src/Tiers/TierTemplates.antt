-- ===== src/Tiers/TierTemplates.antt =====
-- `initTierTemplates` and what it calls: the TierTemplates of every tier.
use toolchain_common.Base.{
  String, ◌<>◌, Option, none, some, List, [], ◌∷◌, ◌++◌, map, ◌==◌, string_eq, if◌then◌else◌,
  Result, ok, err, wrapped,
}
use toolchain_common.Base.Dict.{Dict, lookup, insert}
use toolchain_common.Templates.Process.{Parameter, Template, Library}
use toolchain_common.Tiers.Files.{RawTemplate, TierTemplate, TierData, Tiers}

-- The generator's field `namespace`, the decoder of a template's content, `strings.ToLower`,
-- `strings.ToUpper`, `sort.Strings`, and the constant ClusterResourcesTemplateType.
pub record Generator (B O P : Type 0) : Type 0 where
  pub namespace : String
  pub decode : B → Result (Template O)
  pub to_lower : String → String
  pub to_upper : String → String
  pub sort_strings : List String → List String
  pub cluster_resources_template_type : String
  pub library : Library O P

-- A call that may fail, or panic as it reads through a nil pointer.
pub data Outcome (A : Type 0) : Type 0 where
  returned : Result A → Outcome A
  panicked : Outcome A

abbrev pub keys : {V : Type 0} → Dict String V → List String
keys d = map (λ (k, _). k) d

-- The inner loop of `setParams`: the first parameter of the name gets the value.
unfoldable pub set_param : Parameter → List Parameter → List Parameter
set_param param_to_set [] = []
set_param param_to_set (param ∷ ps) =
    let rest = set_param param_to_set ps in
    if param.name == param_to_set.name
    then record param { value = param_to_set.value } ∷ ps
    else param ∷ rest

unfoldable pub set_params : List Parameter → List Parameter → List Parameter
unfolding set_param
set_params [] ps = ps
set_params (param_to_set ∷ parameters_to_set) ps =
    set_params parameters_to_set (set_param param_to_set ps)

module _ {B O P : Type 0} (t : Generator B O P) where
  unfoldable pub new_tier_template_name : String → String → String → String
  new_tier_template_name tier kind revision =
      t.to_lower (tier <> ("-" <> (kind <> ("-" <> revision))))

  -- The revision of a TierTemplate: that of the based_on_tier file, or the template's own in its place,
  -- and the template's own.
  unfoldable pub tier_template_revision : String → String → String
  tier_template_revision based_on_tier_file_revision revision =
      (if based_on_tier_file_revision == "" then revision else based_on_tier_file_revision)
      <> ("-" <> revision)

  abbrev pub decoded :
      String → String → String → List Parameter → Result (Template O) → Result (TierTemplate O)
  decoded revision tier kind parameters (err e) = err (
      wrapped
        ("unable to generate '"
          <> (new_tier_template_name tier kind revision <> "' TierTemplate manifest"))
        e)
  decoded revision tier kind parameters (ok tmpl) = ok (record {
    namespace = t.namespace;
    name = new_tier_template_name tier kind revision;
    revision = revision;
    tier_name = tier;
    type = kind;
    template = record tmpl { parameters = set_params parameters tmpl.parameters };
  })

  unfoldable pub new_tier_template :
      String → String → String → RawTemplate B → List Parameter → Result (TierTemplate O)
  unfolding tier_template_revision set_params new_tier_template_name
  new_tier_template based_on_tier_file_revision tier kind tmpl parameters =
      decoded (tier_template_revision based_on_tier_file_revision tmpl.revision) tier kind
        parameters (t.decode tmpl.content)

  abbrev pub and_template :
      Result (TierTemplate O) → Result (List (TierTemplate O)) → Result (List (TierTemplate O))
  and_template (err e) rest = err e
  and_template (ok tmpl) (err e) = err e
  and_template (ok tmpl) (ok tmpls) = ok (tmpl ∷ tmpls)

  -- The loop over the sorted keys of a map; each key is one of the map.
  unfoldable pub new_templates_of :
      String
      → String
      → List Parameter
      → Dict String (RawTemplate B)
      → List String
      → Result (List (TierTemplate O))
  unfolding new_tier_template
  new_templates_of file_revision tier parameters raw [] = ok []
  new_templates_of file_revision tier parameters raw (kind ∷ kinds) =
      let rest = new_templates_of file_revision tier parameters raw kinds in
      elim (lookup kind raw) [
        | none ↦ rest
        | some tmpl ↦ and_template (new_tier_template file_revision tier kind tmpl parameters) rest
      ]

  abbrev pub and_templates :
      Result (List (TierTemplate O))
      → Result (List (TierTemplate O))
      → Result (List (TierTemplate O))
  and_templates (err e) rest = err e
  and_templates (ok tmpls) (err e) = err e
  and_templates (ok tmpls) (ok more) = ok (tmpls ++ more)

  unfoldable pub new_cluster_template :
      String → String → List Parameter → Option (RawTemplate B) → Result (List (TierTemplate O))
  unfolding new_tier_template
  new_cluster_template file_revision tier parameters none = ok []
  new_cluster_template file_revision tier parameters (some tmpl) =
      and_template
        (new_tier_template file_revision tier t.cluster_resources_template_type tmpl parameters)
        (ok [])

  unfoldable pub new_tier_templates :
      String → TierData B O P → String → List Parameter → Result (List (TierTemplate O))
  unfolding new_templates_of new_cluster_template
  new_tier_templates file_revision tier_data tier parameters =
      let raw = tier_data.raw_templates in
      and_templates
        (new_templates_of file_revision tier parameters raw.namespace_templates
          (t.sort_strings (keys raw.namespace_templates)))
        (and_templates
          (new_templates_of file_revision tier parameters raw.spacerole_templates
            (t.sort_strings (keys raw.spacerole_templates)))
          (new_cluster_template file_revision tier parameters raw.cluster_template))

  -- The templates of a tier that is based on another: with its own template of the based_on_tier file,
  -- whose revision is read, and the data of the other tier. Both are pointers, and `none` is nil.
  abbrev pub from_source :
      Option (RawTemplate B)
      → String
      → List Parameter
      → Option (TierData B O P)
      → Outcome (List (TierTemplate O))
  from_source none tier parameters source = panicked
  from_source (some file) tier parameters none = panicked
  from_source (some file) tier parameters (some source) =
      returned (new_tier_templates file.revision source tier parameters)

  -- The body of the loop of `initTierTemplates`.
  unfoldable pub tier_templates_of :
      Tiers B O P → String → TierData B O P → Outcome (List (TierTemplate O))
  unfolding new_tier_templates
  tier_templates_of tiers tier tier_data = elim tier_data.based_on_tier [
    | none ↦ returned (new_tier_templates "" tier_data tier [])
    | some based ↦
        from_source tier_data.raw_templates.based_on_tier tier based.parameters
          (lookup based.from tiers)
  ]

  abbrev pub and_tier_templates :
      String
      → TierData B O P
      → Tiers B O P
      → (Tiers B O P → Outcome (Tiers B O P))
      → Outcome (List (TierTemplate O))
      → Outcome (Tiers B O P)
  and_tier_templates tier tier_data tiers rest panicked = panicked
  and_tier_templates tier tier_data tiers rest (returned (err e)) = returned (err e)
  and_tier_templates tier tier_data tiers rest (returned (ok tmpls)) =
      rest (insert tier (record tier_data { tier_templates = tmpls }) tiers)

  -- The loop over the sorted names of the tiers; each is a key of the map.
  unfoldable pub init_loop : List String → Tiers B O P → Outcome (Tiers B O P)
  unfolding tier_templates_of
  init_loop [] tiers = returned (ok tiers)
  init_loop (tier ∷ rest) tiers = elim (lookup tier tiers) [
    | none ↦ panicked
    | some tier_data ↦
        and_tier_templates tier tier_data tiers (λ tiers'. init_loop rest tiers')
          (tier_templates_of tiers tier tier_data)
  ]

  unfoldable pub init_tier_templates : Tiers B O P → Outcome (Tiers B O P)
  unfolding init_loop
  init_tier_templates tiers = init_loop (t.sort_strings (keys tiers)) tiers
