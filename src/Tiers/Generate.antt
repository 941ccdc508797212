-- ===== src/Tiers/Generate.antt =====
-- `GenerateTiers`: the generator is made, then the TierTemplates are ensured, then the NSTemplateTiers.
use toolchain_common.Base.{
  ℕ, String, ◌<>◌, Option, none, some, List, [], ◌∷◌, string_eq, nat_eq, Result, ok, err, Error,
  failed, wrapped, length,
}
use toolchain_common.Base.Dict.{Dict, lookup, insert}
use toolchain_common.Tiers.Files.{
  BasedOnTier, TierTemplate, TierData, Tiers, load_templates_by_tiers,
}
use toolchain_common.Tiers.TierTemplates.{
  Generator, Outcome, returned, panicked, keys, init_tier_templates,
}
use toolchain_common.Tiers.NsTemplateTiers.{Names, init_ns_template_tiers}

-- An NSTemplateTier: its labels, none for a nil map, and the rest.
pub record NsTemplateTier (N : Type 0) : Type 0 where
  pub labels : Option (Dict String String)
  pub rest : N

-- What `EnsureObject` is given.
pub data Ensured (O N : Type 0) : Type 0 where
  a_tier_template : TierTemplate O → Ensured O N
  a_tier : NsTemplateTier N → Ensured O N

-- The function `ensureObject` over a cluster `S`, `yaml.Unmarshal` into a BasedOnTier, the conversion of
-- an object into an NSTemplateTier (with the assertion that it is unstructured), the text of a number,
-- the provider label and its value, and the orders in which the three ranges visit the keys.
pub record Environment (B O P N S : Type 0) : Type 0 where
  pub generator : Generator B O P
  pub names : Names P
  pub unmarshal : B → Result BasedOnTier
  pub to_tier : P → Result (NsTemplateTier N)
  pub ensure_object : Ensured O N → String → S → Option Error × S
  pub number : ℕ → String
  pub provider_label_key : String
  pub provider_label_value : String
  pub order_init : List String → List String
  pub order_templates : List String → List String
  pub order_tiers : List String → List String

module _ {B O P N S : Type 0} (env : Environment B O P N S) where
  abbrev pub and_outcome :
      Outcome (Tiers B O P) → (Tiers B O P → Outcome (Tiers B O P)) → Outcome (Tiers B O P)
  and_outcome panicked rest = panicked
  and_outcome (returned (err e)) rest = returned (err e)
  and_outcome (returned (ok tiers)) rest = rest tiers

  -- `newNSTemplateTierGenerator`: the map of the tiers that it holds.
  unfoldable pub new_ns_template_tier_generator :
      Dict String String → Dict String B → Outcome (Tiers B O P)
  unfolding load_templates_by_tiers init_tier_templates init_ns_template_tiers
  new_ns_template_tier_generator metadata files =
      and_outcome (returned (load_templates_by_tiers env.unmarshal metadata files)) (λ tiers.
        and_outcome (init_tier_templates env.generator tiers) (λ tiers'.
          init_ns_template_tiers env.generator env.names (env.order_init (keys tiers')) tiers'))

  -- What is left of a loop behind one object; its error is wrapped.
  abbrev pub and_then : String → Option Error × S → (S → Option Error × S) → Option Error × S
  and_then text (some e, s) rest = (some (wrapped text e), s)
  and_then text (none, s) rest = rest s

  -- The inner loop of `createTierTemplates`, and what is left of the outer one.
  unfoldable pub create_templates_of :
      String → List (TierTemplate O) → (S → Option Error × S) → S → Option Error × S
  create_templates_of tier_name [] rest s = rest s
  create_templates_of tier_name (tmpl ∷ tmpls) rest s =
      and_then
        ("unable to create the '"
          <> (tmpl.name <> ("' TierTemplate in namespace '" <> (tmpl.namespace <> "'"))))
        (env.ensure_object (a_tier_template tmpl) tier_name s)
        (λ s'. create_templates_of tier_name tmpls rest s')

  abbrev pub templates_of : Option (TierData B O P) → List (TierTemplate O)
  templates_of none = []
  templates_of (some d) = d.tier_templates

  unfoldable pub create_tier_templates : Tiers B O P → List String → S → Option Error × S
  unfolding create_templates_of
  create_tier_templates tiers [] s = (none, s)
  create_tier_templates tiers (tier_name ∷ rest) s =
      create_templates_of tier_name (templates_of (lookup tier_name tiers))
        (λ s'. create_tier_templates tiers rest s') s

  -- The assignment to the map of the labels: a new map, made where there was none, is not the tier's.
  unfoldable pub with_provider : NsTemplateTier N → NsTemplateTier N
  with_provider tier = elim tier.labels [
    | none ↦ tier
    | some labels ↦ record tier {
      labels = some (insert env.provider_label_key env.provider_label_value labels);
    }
  ]

  abbrev pub ensure_tier :
      String → Result (NsTemplateTier N) → (S → Option Error × S) → S → Option Error × S
  ensure_tier tier_name (err e) rest s = (some e, s)
  ensure_tier tier_name (ok tier) rest s =
      and_then ("unable to create or update the '" <> (tier_name <> "' NSTemplateTier"))
        (env.ensure_object (a_tier (with_provider tier)) tier_name s) rest

  abbrev pub objects_or_none : Option (TierData B O P) → List P
  objects_or_none none = []
  objects_or_none (some d) = d.objects

  -- The body of the loop of `createNSTemplateTiers`, and what is left of the loop.
  unfoldable pub create_tier_of : String → List P → (S → Option Error × S) → S → Option Error × S
  unfolding with_provider
  create_tier_of tier_name (obj ∷ []) rest s = ensure_tier tier_name (env.to_tier obj) rest s
  create_tier_of tier_name objs rest s = (
    some (
        failed (
          "there is an unexpected number of NSTemplateTier object to be applied for tier name '"
          <> (tier_name <> ("'; expected: 1; actual: " <> env.number (length objs))))),
    s,
  )

  unfoldable pub create_ns_template_tiers : Tiers B O P → List String → S → Option Error × S
  unfolding create_tier_of
  create_ns_template_tiers tiers [] s = (none, s)
  create_ns_template_tiers tiers (tier_name ∷ rest) s =
      create_tier_of tier_name (objects_or_none (lookup tier_name tiers))
        (λ s'. create_ns_template_tiers tiers rest s') s

  abbrev pub finish : String → Option Error × S → Option Error × S
  finish text (none, s) = (none, s)
  finish text (some e, s) = (some (wrapped text e), s)

  abbrev pub created : Tiers B O P → S → Option Error × S
  created tiers s =
      and_then "unable to create TierTemplates"
        (create_tier_templates tiers (env.order_templates (keys tiers)) s)
        (λ s'.
          finish "unable to create NSTemplateTiers"
            (create_ns_template_tiers tiers (env.order_tiers (keys tiers)) s'))

  abbrev pub generated : Outcome (Tiers B O P) → S → Outcome Unit × S
  generated panicked s = (panicked, s)
  generated (returned (err e)) s =
      (returned (err (wrapped "unable to init NSTemplateTier generator" e)), s)
  generated (returned (ok tiers)) s =
      let (e, s') = created tiers s in
      (elim e [ none ↦ returned (ok tt) | some e ↦ returned (err e) ], s')

  unfoldable pub generate_tiers : Dict String String → Dict String B → S → Outcome Unit × S
  unfolding new_ns_template_tier_generator create_tier_templates create_ns_template_tiers
  generate_tiers metadata files s = generated (new_ns_template_tier_generator metadata files) s
