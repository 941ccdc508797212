-- ===== src/Tiers/Tests.antt =====
-- Runs of the generator on the files of two tiers, and its theorems at them.
use mathlib.Core.Path.{subst}
use toolchain_common.Base.{
  some_inj, String, ◌≡◌, ◌≢◌, refl, Bool, true, false, none, some, List, [], ◌∷◌, ◌==◌, string_eq,
  nat_eq, Result, ok, failed, arith, In, inl, ◌↔◌, if◌then◌else◌, map, length, split, has_prefix,
  trim_prefix, trim_suffix, replace_first, same_char,
}
use toolchain_common.Base.Dict.{Dict, lookup, insert}
use toolchain_common.Templates.Process.{Parameter, Library}
use toolchain_common.Tiers.Files.{BasedOnTier, TierTemplate, TierData, Tiers, scope_of}
use toolchain_common.Tiers.TierTemplates.{
  Generator, returned, panicked, set_params, init_loop, init_tier_templates,
}
use toolchain_common.Tiers.NsTemplateTiers.{tier_params}
use toolchain_common.Tiers.Generate.{
  NsTemplateTier, Environment, new_ns_template_tier_generator, generate_tiers,
}
use toolchain_common.Tiers.ParameterLaws.{overridden, set_params-eq-map}
use toolchain_common.Tiers.InitLaws.{Finished, HasBase}
use toolchain_common.Tiers.Sources.{init_tier_templates-Finished, init_tier_templates_returns}
use toolchain_common.Tiers.GenerateLaws.{result_of, run_all, generate_tiers-eq-run}
use toolchain_common.Tiers.ReferenceLaws.{lookup-tier_params}

abbrev timeout : String → Parameter
timeout value = record { name = "TIMEOUT"; value = value; generate = ""; rest = "" }

-- The content of a file is one text, which is the object of its template.
abbrev library : Library String String
library = record {
  get_parameter_by_name = λ ps name. elim ps [ [] ↦ none | p ∷ ps ↦ some 0 ];
  process = λ tmpl. ok tmpl;
  convert = λ tmpl. ok tmpl;
  cast = λ obj. some obj;
  kind = λ obj. "Namespace";
}

abbrev generator : Generator String String String
generator = record {
  namespace = "host";
  decode = λ content. ok (record { parameters = timeout "10" ∷ []; objects = content ∷ [] });
  to_lower = λ s. s;
  to_upper = λ s. elim (s == "dev") [ true ↦ "DEV" | false ↦ s ];
  sort_strings = λ ks. ks;
  cluster_resources_template_type = "clusterresources";
  library = library;
}

abbrev metadata : Dict String String
metadata = ("base/ns_dev", "a1") ∷ ("base/tier", "b2") ∷ ("big/based_on_tier", "c3") ∷ []

abbrev files : Dict String String
files =
    ("base/ns_dev.yaml", "dev") ∷ ("base/tier.yaml", "base") ∷ ("big/based_on_tier.yaml", "50") ∷ []

abbrev based : BasedOnTier
based = record { revision = ""; from = "base"; parameters = timeout "50" ∷ [] }

abbrev unmarshal : String → Result BasedOnTier
unmarshal content = ok based

abbrev base : TierData String String String
base = record {
  name = "base";
  raw_templates = record {
    ns_template_tier = some (record { revision = "b2"; content = "base" });
    cluster_template = none;
    namespace_templates = ("dev", record { revision = "a1"; content = "dev" }) ∷ [];
    spacerole_templates = [];
    based_on_tier = none;
  };
  tier_templates = [];
  objects = [];
  based_on_tier = none;
}

abbrev big : TierData String String String
big = record {
  name = "big";
  raw_templates = record {
    ns_template_tier = none;
    cluster_template = none;
    namespace_templates = [];
    spacerole_templates = [];
    based_on_tier = some (record { revision = "c3"; content = "50" });
  };
  tier_templates = [];
  objects = [];
  based_on_tier = some based;
}

abbrev tiers : Tiers String String String
tiers = ("base", base) ∷ ("big", big) ∷ []

abbrev dev : String → String → String → String → TierTemplate String
dev name revision tier value = record {
  namespace = "host";
  name = name;
  revision = revision;
  tier_name = tier;
  type = "dev";
  template = record { parameters = timeout value ∷ []; objects = "dev" ∷ [] };
}

abbrev with_dev : Tiers String String String
with_dev =
    ("base", record base { tier_templates = dev "base-dev-a1-a1" "a1-a1" "base" "10" ∷ [] })
    ∷ ("big", record big { tier_templates = dev "big-dev-c3-a1" "c3-a1" "big" "50" ∷ [] })
    ∷ []

set_params-eq-map_example :
    set_params (timeout "50" ∷ []) (timeout "10" ∷ [])
    ≡ map (overridden (timeout "50" ∷ [])) (timeout "10" ∷ [])
set_params-eq-map_example = set_params-eq-map (timeout "50" ∷ []) (timeout "10" ∷ []) (tt, tt)

initialised : init_tier_templates generator tiers ≡ returned (ok with_dev)
unfolding init_tier_templates init_loop lookup string_eq insert
initialised = refl

sorts : (k : String) (ks : List String) → In k (generator.sort_strings ks) ↔ In k ks
sorts k ks = (λ there. there, λ there. there)

init_tier_templates-Finished_example : Finished generator with_dev "big"
init_tier_templates-Finished_example =
    init_tier_templates-Finished generator sorts tiers with_dev "big" initialised

sourced :
    (tier : String) (d : TierData String String String)
    → lookup tier tiers ≡ some d
    → HasBase tiers d.raw_templates.based_on_tier d.based_on_tier
unfolding lookup string_eq
sourced tier d found = pick (tier == "base") (tier == "big") found
  where
    Sourced : TierData String String String → Type 0
    Sourced x = HasBase tiers x.raw_templates.based_on_tier x.based_on_tier

    pick :
        (a b : Bool)
        → (if a then some base else (if b then some big else none)) ≡ some d
        → Sourced d
    pick true b same = subst (λ x. Sourced x) (some_inj same) tt
    pick false true same = subst (λ x. Sourced x) (some_inj same) (refl, refl)
    pick false false same = ground arith

init_tier_templates_returns_example : init_tier_templates generator tiers ≢ panicked
init_tier_templates_returns_example = init_tier_templates_returns generator sorts tiers sourced

-- A tier that is based on one that is not there makes the code read a nil pointer.
stuck : init_tier_templates generator (("big", big) ∷ []) ≡ panicked
unfolding init_tier_templates init_loop lookup string_eq
stuck = refl

-- So does a tier that is based on another, but has no template of the file that says so.
without_file :
    init_tier_templates generator
      (("base", base) ∷ ("big", record big { raw_templates = base.raw_templates }) ∷ [])
    ≡ panicked
unfolding init_tier_templates init_loop lookup string_eq insert
without_file = refl

lookup-tier_params_example :
    (lookup "NAMESPACE" (tier_params generator (dev "base-dev" "a1-a1" "base" "10" ∷ []))
      ≡ some "host")
    × (lookup "DEV_TEMPL_REF" (tier_params generator (dev "base-dev" "a1-a1" "base" "10" ∷ []))
        ≡ some "base-dev")
unfolding string_eq
lookup-tier_params_example =
    let one = dev "base-dev" "a1-a1" "base" "10" in
    let (ns, refs) = lookup-tier_params generator (one ∷ []) in (ns, refs (tt, tt) one (inl refl))

-- The cluster is the list of the names of what has been ensured; the third object is refused.
abbrev environment : Environment String String String String (List String)
environment = record {
  generator = generator;
  names = record { get_name = λ obj. obj; set_name = λ name obj. name };
  unmarshal = unmarshal;
  to_tier = λ obj. ok (record { labels = some []; rest = obj });
  ensure_object = λ x tier s. elim (length s == 2) [
    | true ↦ (some (failed "full"), s)
    | false ↦ (none, tier ∷ s)
  ];
  number = λ n. "n";
  provider_label_key = "provider";
  provider_label_value = "codeready-toolchain";
  order_init = λ ks. ks;
  order_templates = λ ks. ks;
  order_tiers = λ ks. ks;
}

abbrev complete : Tiers String String String
complete =
    (
      "base",
      record base {
        tier_templates = dev "base-dev-a1-a1" "a1-a1" "base" "10" ∷ [];
        objects = "base" ∷ [];
      },
    )
    ∷ (
      "big",
      record big {
        tier_templates = dev "big-dev-c3-a1" "c3-a1" "big" "50" ∷ [];
        objects = "big" ∷ [];
      },
    )
    ∷ []

generated : new_ns_template_tier_generator environment metadata files ≡ returned (ok complete)
unfolding new_ns_template_tier_generator split same_char string_eq scope_of has_prefix insert lookup
    trim_suffix trim_prefix replace_first
generated = refl

abbrev tier_at : String → NsTemplateTier String
tier_at name = record { labels = some []; rest = name }

generate_tiers-eq-run_example : generate_tiers environment metadata files [] ≡ (
  result_of environment (run_all environment complete tier_at []).0,
  (run_all environment complete tier_at []).1,
)
unfolding lookup string_eq
generate_tiers-eq-run_example =
    generate_tiers-eq-run environment metadata files complete tier_at [] generated
      (("base", refl, refl), (("big", refl, refl), tt))

refused : (generate_tiers environment metadata files []).1 ≡ "big" ∷ "base" ∷ []
unfolding generate_tiers split same_char string_eq scope_of has_prefix insert lookup trim_suffix
    trim_prefix nat_eq
refused = refl
