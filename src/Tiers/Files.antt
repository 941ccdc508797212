-- ===== src/Tiers/Files.antt =====
-- The first half of the generator: the files are dispatched by tiers.
use toolchain_common.Base.{
  String, ◌<>◌, Bool, true, false, not, ◌&&◌, ◌||◌, Option, none, some, List, [], ◌∷◌, ◌==◌,
  string_eq, if◌then◌else◌, Result, ok, err, failed, wrapped, is_some, split, has_prefix,
  trim_prefix, trim_suffix,
}
use toolchain_common.Base.Dict.{Dict, lookup, insert}
use toolchain_common.Templates.Process.{Parameter, Template}

-- The Go type `template`, with contents `B`.
pub record RawTemplate (B : Type 0) : Type 0 where
  pub revision : String
  pub content : B

pub record BasedOnTier : Type 0 where
  pub revision : String
  pub from : String
  pub parameters : List Parameter

pub record Templates (B : Type 0) : Type 0 where
  pub ns_template_tier : Option (RawTemplate B)
  pub cluster_template : Option (RawTemplate B)
  pub namespace_templates : Dict String (RawTemplate B)
  pub spacerole_templates : Dict String (RawTemplate B)
  pub based_on_tier : Option (RawTemplate B)

-- A TierTemplate, with template objects `O`.
pub record TierTemplate (O : Type 0) : Type 0 where
  pub namespace : String
  pub name : String
  pub revision : String
  pub tier_name : String
  pub type : String
  pub template : Template O

-- `P` are the client objects.
pub record TierData (B O P : Type 0) : Type 0 where
  pub name : String
  pub raw_templates : Templates B
  pub tier_templates : List (TierTemplate O)
  pub objects : List P
  pub based_on_tier : Option BasedOnTier

abbrev pub Tiers : Type 0 → Type 0 → Type 0 → Type 0
Tiers B O P = Dict String (TierData B O P)

-- What the `switch` tells from a file's name.
pub data Scope : Type 0 where
  tier_file : Scope
  cluster_file : Scope
  namespace_file : String → Scope
  spacerole_file : String → Scope
  based_on_tier_file : Scope

unfoldable pub scope_of : String → Option Scope
scope_of filename =
    if filename == "tier.yaml"
    then some tier_file
    else (if filename == "cluster.yaml"
        then some cluster_file
        else (if has_prefix filename "ns_"
            then some (namespace_file (trim_suffix (trim_prefix filename "ns_") ".yaml"))
            else (if has_prefix filename "spacerole_"
                then some (spacerole_file (trim_suffix (trim_prefix filename "spacerole_") ".yaml"))
                else (if filename == "based_on_tier.yaml" then some based_on_tier_file else none))))

abbrev pub is_empty : {A : Type 0} → List A → Bool
is_empty [] = true
is_empty (_ ∷ _) = false

-- A missing key of the metadata reads as the empty text.
abbrev pub revision_or_empty : Option String → String
revision_or_empty none = ""
revision_or_empty (some revision) = revision

module _ {B O P : Type 0} where
  unfoldable pub new_tier_data : String → TierData B O P
  new_tier_data tier = record {
    name = tier;
    raw_templates = record {
      ns_template_tier = none;
      cluster_template = none;
      namespace_templates = [];
      spacerole_templates = [];
      based_on_tier = none;
    };
    tier_templates = [];
    objects = [];
    based_on_tier = none;
  }

  -- The entry of a tier, made if it is missing.
  unfoldable pub tier_or_new : String → Tiers B O P → TierData B O P
  unfolding new_tier_data
  tier_or_new tier results = elim (lookup tier results) [ some d ↦ d | none ↦ new_tier_data tier ]

  module _ (unmarshal : B → Result BasedOnTier) where
    abbrev pub with_based_on :
        String → RawTemplate B → TierData B O P → Result BasedOnTier → Result (TierData B O P)
    with_based_on name tmpl d (err e) = err (wrapped ("unable to unmarshal '" <> (name <> "'")) e)
    with_based_on name tmpl d (ok based_on_tier) = ok (record d {
      raw_templates = record d.raw_templates { based_on_tier = some tmpl };
      based_on_tier = some based_on_tier;
    })

    -- The arms of the `switch`.
    unfoldable pub with_file :
        String → Scope → RawTemplate B → TierData B O P → Result (TierData B O P)
    with_file name tier_file tmpl d =
        ok (record d { raw_templates = record d.raw_templates { ns_template_tier = some tmpl } })
    with_file name cluster_file tmpl d =
        ok (record d { raw_templates = record d.raw_templates { cluster_template = some tmpl } })
    with_file name (namespace_file kind) tmpl d = ok (record d {
      raw_templates = record d.raw_templates {
        namespace_templates = insert kind tmpl d.raw_templates.namespace_templates;
      };
    })
    with_file name (spacerole_file role) tmpl d = ok (record d {
      raw_templates = record d.raw_templates {
        spacerole_templates = insert role tmpl d.raw_templates.spacerole_templates;
      };
    })
    with_file name based_on_tier_file tmpl d = with_based_on name tmpl d (unmarshal tmpl.content)

    abbrev pub and_insert : String → Tiers B O P → Result (TierData B O P) → Result (Tiers B O P)
    and_insert tier results (err e) = err e
    and_insert tier results (ok d) = ok (insert tier d results)

    abbrev pub and_scope :
        String → String → Option Scope → RawTemplate B → Tiers B O P → Result (Tiers B O P)
    and_scope name tier none tmpl results =
        err (failed ("unable to load templates: unknown scope for file '" <> (name <> "'")))
    and_scope name tier (some scope) tmpl results =
        and_insert tier results (with_file name scope tmpl (tier_or_new tier results))

    -- The body of the loop, with the parts of the name.
    unfoldable pub load_parts :
        Dict String String → String → B → List String → Tiers B O P → Result (Tiers B O P)
    unfolding with_file tier_or_new
    load_parts metadata name content (tier ∷ filename ∷ []) results =
        and_scope name tier (scope_of filename)
          (record {
            revision = revision_or_empty (lookup (trim_suffix name ".yaml") metadata);
            content = content;
          })
          results
    load_parts metadata name content parts results =
        err (failed ("unable to load templates: invalid name format for file '" <> (name <> "'")))

    abbrev pub and_load :
        (Tiers B O P → Result (Tiers B O P)) → Result (Tiers B O P) → Result (Tiers B O P)
    and_load rest (err e) = err e
    and_load rest (ok results) = rest results

    unfoldable pub load_files :
        Dict String String → Dict String B → Tiers B O P → Result (Tiers B O P)
    unfolding load_parts
    load_files metadata [] results = ok results
    load_files metadata ((name, content) ∷ files) results =
        and_load (λ results'. load_files metadata files results')
          (load_parts metadata name content (split "/" name) results)

  unfoldable pub is_mixed : TierData B O P → Bool
  is_mixed d =
      let raw = d.raw_templates in
      is_some raw.based_on_tier
      && (is_some raw.cluster_template
          || (not (is_empty raw.namespace_templates) || is_some raw.ns_template_tier))

  -- The loop that checks the tiers.
  unfoldable pub check_tiers : Tiers B O P → Tiers B O P → Result (Tiers B O P)
  unfolding is_mixed
  check_tiers [] results = ok results
  check_tiers ((tier, d) ∷ rest) results =
      let checked = check_tiers rest results in
      if is_mixed d
      then err (
          failed (
            "the tier "
            <> (tier
                <> " contains a mix of based_on_tier.yaml file together with a regular template file")))
      else checked

  abbrev pub checked : Result (Tiers B O P) → Result (Tiers B O P)
  checked (err e) = err e
  checked (ok results) = check_tiers results results

  unfoldable pub load_templates_by_tiers :
      (B → Result BasedOnTier) → Dict String String → Dict String B → Result (Tiers B O P)
  unfolding load_files check_tiers
  load_templates_by_tiers unmarshal metadata files =
      checked (load_files unmarshal metadata files [])
