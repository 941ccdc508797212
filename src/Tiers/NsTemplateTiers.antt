-- ===== src/Tiers/NsTemplateTiers.antt =====
-- `initNSTemplateTiers` and what it calls: the NSTemplateTier of every tier.
use toolchain_common.Base.{
  String, ◌<>◌, Option, none, some, List, [], ◌∷◌, map, ◌==◌, string_eq, if◌then◌else◌, Result, ok,
  err, failed, wrapped, replace_first,
}
use toolchain_common.Base.Dict.{Dict, lookup, insert}
use toolchain_common.Templates.Process.{Parameter, Template, process}
use toolchain_common.Tiers.Files.{RawTemplate, TierTemplate, TierData, Tiers}
use toolchain_common.Tiers.TierTemplates.{Generator, Outcome, returned, panicked, set_params}

-- The name of a client object, read and written.
pub record Names (P : Type 0) : Type 0 where
  pub get_name : P → String
  pub set_name : String → P → P

module _ {B O P : Type 0} (t : Generator B O P) where
  -- The parameter that refers to a TierTemplate of a type.
  unfoldable pub reference_key : String → String
  reference_key type =
      if type == t.cluster_resources_template_type
      then "CLUSTER_TEMPL_REF"
      else t.to_upper type <> "_TEMPL_REF"

  unfoldable pub reference_params : List (TierTemplate O) → Dict String String → Dict String String
  unfolding reference_key
  reference_params [] params = params
  reference_params (tmpl ∷ tmpls) params =
      reference_params tmpls (insert (reference_key tmpl.type) tmpl.name params)

  unfoldable pub tier_params : List (TierTemplate O) → Dict String String
  unfolding reference_params
  tier_params tmpls = reference_params tmpls (insert "NAMESPACE" t.namespace [])

  module _ (names : Names P) where
    unfoldable pub rename : String → String → P → P
    rename source_tier_name tier_name obj =
        names.set_name (replace_first (names.get_name obj) source_tier_name tier_name) obj

    abbrev pub renamed : String → String → Result (List P) → Result (List P)
    renamed source_tier_name tier_name (err e) = err e
    renamed source_tier_name tier_name (ok objs) = ok (map (rename source_tier_name tier_name) objs)

    abbrev pub tier_objects :
        String
        → String
        → List (TierTemplate O)
        → List Parameter
        → Result (Template O)
        → Result (List P)
    tier_objects source_tier_name tier_name tmpls parameters (err e) =
        err (wrapped ("unable to generate '" <> (tier_name <> "' NSTemplateTier manifest")) e)
    tier_objects source_tier_name tier_name tmpls parameters (ok tmpl) =
        renamed source_tier_name tier_name (
          process t.library (record tmpl { parameters = set_params parameters tmpl.parameters })
            (tier_params tmpls) [])

    unfoldable pub new_ns_template_tier :
        String
        → String
        → Option (RawTemplate B)
        → List (TierTemplate O)
        → List Parameter
        → Result (List P)
    unfolding set_params tier_params rename process
    new_ns_template_tier source_tier_name tier_name none tmpls parameters =
        err (failed ("tier " <> (tier_name <> " is missing a tier.yaml file")))
    new_ns_template_tier source_tier_name tier_name (some raw) tmpls parameters =
        tier_objects source_tier_name tier_name tmpls parameters (t.decode raw.content)

    -- The object of a tier with the data of the tier that it is based on, if any.
    abbrev pub objects_from :
        String → List (TierTemplate O) → List Parameter → Option (TierData B O P) → Outcome (List P)
    objects_from tier_name tmpls parameters none = panicked
    objects_from tier_name tmpls parameters (some source) = returned (
        new_ns_template_tier source.name tier_name source.raw_templates.ns_template_tier tmpls
          parameters)

    -- The body of the loop.
    unfoldable pub objects_of : Tiers B O P → String → TierData B O P → Outcome (List P)
    unfolding new_ns_template_tier
    objects_of tiers tier_name tier_data = elim tier_data.based_on_tier [
      | none ↦ returned (
          new_ns_template_tier tier_name tier_name tier_data.raw_templates.ns_template_tier
            tier_data.tier_templates [])
      | some based ↦
          objects_from tier_name tier_data.tier_templates based.parameters (lookup based.from tiers)
    ]

    abbrev pub and_objects :
        String
        → TierData B O P
        → Tiers B O P
        → (Tiers B O P → Outcome (Tiers B O P))
        → Outcome (List P)
        → Outcome (Tiers B O P)
    and_objects tier_name tier_data tiers rest panicked = panicked
    and_objects tier_name tier_data tiers rest (returned (err e)) = returned (err e)
    and_objects tier_name tier_data tiers rest (returned (ok objs)) =
        rest (insert tier_name (record tier_data { objects = objs }) tiers)

    -- The loop over the names of the tiers in the order of the range; each is a key of the map.
    unfoldable pub init_ns_template_tiers : List String → Tiers B O P → Outcome (Tiers B O P)
    unfolding objects_of
    init_ns_template_tiers [] tiers = returned (ok tiers)
    init_ns_template_tiers (tier_name ∷ rest) tiers = elim (lookup tier_name tiers) [
      | none ↦ panicked
      | some tier_data ↦
          and_objects tier_name tier_data tiers (λ tiers'. init_ns_template_tiers rest tiers')
            (objects_of tiers tier_name tier_data)
    ]
