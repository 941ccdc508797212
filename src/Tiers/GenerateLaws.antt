-- ===== src/Tiers/GenerateLaws.antt =====
-- `GenerateTiers` as one run over a list of objects, which stops at the first error.
use toolchain_common.Base.{
  String, ◌≡◌, refl, ◌∙◌, ap, sym, Option, none, some, List, [], ◌∷◌, ◌++◌, map, ok, err, Error,
  arith, string_eq, ◌<>◌, wrapped,
}
use toolchain_common.Base.Dict.{Dict, lookup, insert}
use toolchain_common.Tiers.Files.{TierTemplate, Tiers}
use toolchain_common.Tiers.TierTemplates.{Outcome, returned, keys}
use toolchain_common.Tiers.Generate.{
  NsTemplateTier, Ensured, a_tier_template, a_tier, Environment, and_then, finish,
  create_templates_of, templates_of, create_tier_templates, with_provider, ensure_tier,
  objects_or_none, create_tier_of, create_ns_template_tiers, created, generated,
  new_ns_template_tier_generator, generate_tiers,
}

module _ {B O P N S : Type 0} (env : Environment B O P N S) where
  -- An object that is to be ensured for a tier, and the text that wraps its error.
  pub record Planned : Type 0 where
    pub object : Ensured O N
    pub tier_name : String
    pub text : String

  abbrev pub next : (Error → Error) → Option Error × S → (S → Option Error × S) → Option Error × S
  next wrap (none, s) rest = rest s
  next wrap (some e, s) rest = (some (wrap e), s)

  -- Each object is ensured for its tier, up to the first error, which is wrapped twice: with the object's
  -- text, and with that of the loop.
  abbrev pub run : (Error → Error) → List Planned → (S → Option Error × S) → S → Option Error × S
  run wrap [] rest s = rest s
  run wrap (x ∷ xs) rest s =
      next (λ e. wrap (wrapped x.text e)) (env.ensure_object x.object x.tier_name s)
        (λ s'. run wrap xs rest s')

  abbrev pub planned_template : String → TierTemplate O → Planned
  planned_template name tmpl = record {
    object = a_tier_template tmpl;
    tier_name = name;
    text =
        "unable to create the '"
        <> (tmpl.name <> ("' TierTemplate in namespace '" <> (tmpl.namespace <> "'")));
  }

  -- The TierTemplates of the tiers, one tier after the other.
  abbrev pub planned_templates : Tiers B O P → List String → List Planned
  planned_templates tiers [] = []
  planned_templates tiers (name ∷ names) =
      map (planned_template name) (templates_of env (lookup name tiers))
      ++ planned_templates tiers names

  -- A tier with the provider label, if it has labels.
  abbrev pub provided : NsTemplateTier N → NsTemplateTier N
  provided tier = record tier { labels = relabelled tier.labels }
    where
      relabelled : Option (Dict String String) → Option (Dict String String)
      relabelled none = none
      relabelled (some labels) =
          some (insert env.provider_label_key env.provider_label_value labels)

  abbrev pub planned_tiers : (String → NsTemplateTier N) → List String → List Planned
  planned_tiers tier_at names = map (λ name. planned name (provided (tier_at name))) names
    where
      planned : String → NsTemplateTier N → Planned
      planned name tier = record {
        object = a_tier tier;
        tier_name = name;
        text = "unable to create or update the '" <> (name <> "' NSTemplateTier");
      }

  -- The end of a run without an error.
  abbrev pub done : S → Option Error × S
  done s = (none, s)

  abbrev pub as_it_is : Error → Error
  as_it_is e = e

  next-cong :
      (wrap : Error → Error) (r : Option Error × S) (k l : S → Option Error × S)
      → ((s : S) → k s ≡ l s)
      → next wrap r k ≡ next wrap r l
  next-cong wrap (none, s) k l same = same s
  next-cong wrap (some e, s) k l same = refl

  run-cong :
      (wrap : Error → Error) (xs : List Planned) (k l : S → Option Error × S) (s : S)
      → ((s : S) → k s ≡ l s)
      → run wrap xs k s ≡ run wrap xs l s
  run-cong wrap [] k l s same = same s
  run-cong wrap (x ∷ xs) k l s same =
      next-cong (λ e. wrap (wrapped x.text e)) (env.ensure_object x.object x.tier_name s)
        (λ s'. run wrap xs k s') (λ s'. run wrap xs l s') (λ s'. run-cong wrap xs k l s' same)

  run-append :
      (wrap : Error → Error) (xs ys : List Planned) (k : S → Option Error × S) (s : S)
      → run wrap (xs ++ ys) k s ≡ run wrap xs (λ s'. run wrap ys k s') s
  run-append wrap [] ys k s = refl
  run-append wrap (x ∷ xs) ys k s =
      next-cong (λ e. wrap (wrapped x.text e)) (env.ensure_object x.object x.tier_name s)
        (λ s'. run wrap (xs ++ ys) k s') (λ s'. run wrap xs (λ s''. run wrap ys k s'') s')
        (λ s'. run-append wrap xs ys k s')

  and_then-eq-next :
      (text : String) (r : Option Error × S) (rest : S → Option Error × S)
      → and_then env text r rest ≡ next (wrapped text) r rest
  and_then-eq-next text (none, s) rest = refl
  and_then-eq-next text (some e, s) rest = refl

  create_templates_of-eq-run :
      (name : String) (tmpls : List (TierTemplate O)) (rest : S → Option Error × S) (s : S)
      → create_templates_of env name tmpls rest s
        ≡ run as_it_is (map (planned_template name) tmpls) rest s
  unfolding create_templates_of
  create_templates_of-eq-run name [] rest s = refl
  create_templates_of-eq-run name (tmpl ∷ tmpls) rest s =
      let text = (planned_template name tmpl).text in
      and_then-eq-next text (env.ensure_object (a_tier_template tmpl) name s)
        (λ s'. create_templates_of env name tmpls rest s')
      ∙ next-cong (wrapped text) (env.ensure_object (a_tier_template tmpl) name s)
          (λ s'. create_templates_of env name tmpls rest s')
          (λ s'. run as_it_is (map (planned_template name) tmpls) rest s')
          (λ s'. create_templates_of-eq-run name tmpls rest s')

  create_tier_templates-eq-run :
      (tiers : Tiers B O P) (names : List String) (s : S)
      → create_tier_templates env tiers names s
        ≡ run as_it_is (planned_templates tiers names) done s
  unfolding create_tier_templates
  create_tier_templates-eq-run tiers [] s = refl
  create_tier_templates-eq-run tiers (name ∷ names) s =
      let own = map (planned_template name) (templates_of env (lookup name tiers)) in
      create_templates_of-eq-run name (templates_of env (lookup name tiers))
        (λ s'. create_tier_templates env tiers names s') s
      ∙ run-cong as_it_is own (λ s'. create_tier_templates env tiers names s')
          (λ s'. run as_it_is (planned_templates tiers names) done s') s
          (λ s'. create_tier_templates-eq-run tiers names s')
      ∙ sym (run-append as_it_is own (planned_templates tiers names) done s)

  with_provider-eq-provided : (tier : NsTemplateTier N) → with_provider env tier ≡ provided tier
  unfolding with_provider
  with_provider-eq-provided tier = ground arith

  -- Each of the tiers has one object, which is a certain NSTemplateTier.
  abbrev pub AreTiers : Tiers B O P → (String → NsTemplateTier N) → List String → Type 0
  AreTiers tiers tier_at [] = Unit
  AreTiers tiers tier_at (name ∷ names) =
      ((obj : P) × (objects_or_none env (lookup name tiers) ≡ obj ∷ [])
        × (env.to_tier obj ≡ ok (tier_at name)))
      × AreTiers tiers tier_at names

  create_ns_template_tiers-eq-run :
      (tiers : Tiers B O P) (tier_at : String → NsTemplateTier N) (names : List String) (s : S)
      → AreTiers tiers tier_at names
      → create_ns_template_tiers env tiers names s
        ≡ run as_it_is (planned_tiers tier_at names) done s
  unfolding create_ns_template_tiers create_tier_of
  create_ns_template_tiers-eq-run tiers tier_at [] s are = refl
  create_ns_template_tiers-eq-run tiers tier_at (name ∷ names) s ((obj, one, is), are) =
      let text = "unable to create or update the '" <> (name <> "' NSTemplateTier") in
      let x = with_provider env (tier_at name) in
      let rest = λ (s' : S). create_ns_template_tiers env tiers names s' in
      ap (λ objs. create_tier_of env name objs rest s) one
      ∙ ap (λ r. ensure_tier env name r rest s) is
      ∙ and_then-eq-next text (env.ensure_object (a_tier x) name s) rest
      ∙ next-cong (wrapped text) (env.ensure_object (a_tier x) name s) rest
          (λ s'. run as_it_is (planned_tiers tier_at names) done s')
          (λ s'. create_ns_template_tiers-eq-run tiers tier_at names s' are)
      ∙ ap
          (λ y.
            next (wrapped text) (env.ensure_object (a_tier y) name s)
              (λ s'. run as_it_is (planned_tiers tier_at names) done s'))
          (with_provider-eq-provided (tier_at name))

  -- What `GenerateTiers` returns for an error or nil.
  abbrev pub result_of : Option Error → Outcome Unit
  result_of none = returned (ok tt)
  result_of (some e) = returned (err e)

  generated_lem :
      (tiers : Tiers B O P) (s : S)
      → generated env (returned (ok tiers)) s
        ≡ (result_of (created env tiers s).0, (created env tiers s).1)
  generated_lem tiers s = by_result (created env tiers s)
    where
      by_result :
          (r : Option Error × S)
          → ◌≡◌ {A = Outcome Unit × S}
              (elim r.0 [ none ↦ returned (ok tt) | some e ↦ returned (err e) ], r.1)
              (result_of r.0, r.1)
      by_result (none, s') = refl
      by_result (some e, s') = refl

  -- The text of a loop wraps the error of its run.
  next-run :
      (text : String) (xs : List Planned) (rest : S → Option Error × S) (s : S)
      → next (wrapped text) (run as_it_is xs done s) rest ≡ run (wrapped text) xs rest s
  next-run text [] rest s = refl
  next-run text (x ∷ xs) rest s =
      by_first (λ s'. next-run text xs rest s') (env.ensure_object x.object x.tier_name s)
    where
      by_first :
          ((s' : S)
            → next (wrapped text) (run as_it_is xs done s') rest ≡ run (wrapped text) xs rest s')
          → (r : Option Error × S)
          → next
              (wrapped text)
              (next (λ e. wrapped x.text e) r (λ s'. run as_it_is xs done s'))
              rest
            ≡ next (λ e. wrapped text (wrapped x.text e)) r (λ s'. run (wrapped text) xs rest s')
      by_first ih (none, s') = ih s'
      by_first ih (some e, s') = refl

  and_then-run :
      (text : String) (r : Option Error × S) (rest : S → Option Error × S) (xs : List Planned)
      (s : S)
      → r ≡ run as_it_is xs done s
      → and_then env text r rest ≡ run (wrapped text) xs rest s
  and_then-run text r rest xs s same =
      and_then-eq-next text r rest
      ∙ ap (λ q. next (wrapped text) q rest) same
      ∙ next-run text xs rest s

  finish-eq-and_then :
      (text : String) (r : Option Error × S) → finish env text r ≡ and_then env text r done
  finish-eq-and_then text (none, s) = refl
  finish-eq-and_then text (some e, s) = refl

  -- The run over the TierTemplates, and the one over the NSTemplateTiers behind it.
  abbrev pub run_all : Tiers B O P → (String → NsTemplateTier N) → S → Option Error × S
  run_all tiers tier_at s =
      run (wrapped "unable to create TierTemplates")
        (planned_templates tiers (env.order_templates (keys tiers)))
        (λ s'.
          run (wrapped "unable to create NSTemplateTiers")
            (planned_tiers tier_at (env.order_tiers (keys tiers))) done s')
        s

  -- Once the generator holds its tiers, and each of them has one object that is an NSTemplateTier,
  -- `GenerateTiers` does what one run does over the TierTemplates of all tiers and then the NSTemplateTiers,
  -- each with the provider label if it has labels at all: every object is ensured for its tier, up to the
  -- first error, which is returned with the text of the object and the text of its loop before it.
  pub generate_tiers-eq-run :
      (metadata : Dict String String) (files : Dict String B) (tiers : Tiers B O P)
      (tier_at : String → NsTemplateTier N) (s : S)
      → new_ns_template_tier_generator env metadata files ≡ returned (ok tiers)
      → AreTiers tiers tier_at (env.order_tiers (keys tiers))
      → generate_tiers env metadata files s
        ≡ (result_of (run_all tiers tier_at s).0, (run_all tiers tier_at s).1)
  unfolding generate_tiers
  generate_tiers-eq-run metadata files tiers tier_at s made are =
      let names = env.order_templates (keys tiers) in
      let names' = env.order_tiers (keys tiers) in
      let text : String = "unable to create NSTemplateTiers" in
      let rest = λ (s' : S). finish env text (create_ns_template_tiers env tiers names' s') in
      let same : created env tiers s ≡ run_all tiers tier_at s =
        and_then-run "unable to create TierTemplates" (create_tier_templates env tiers names s) rest
          (planned_templates tiers names) s (create_tier_templates-eq-run tiers names s)
        ∙ run-cong (wrapped "unable to create TierTemplates") (planned_templates tiers names) rest
            (λ s'. run (wrapped text) (planned_tiers tier_at names') done s') s
            (λ s'.
              finish-eq-and_then text (create_ns_template_tiers env tiers names' s')
              ∙ and_then-run text (create_ns_template_tiers env tiers names' s') done
                  (planned_tiers tier_at names') s'
                  (create_ns_template_tiers-eq-run tiers tier_at names' s' are)) in
      ap (λ o. generated env o s) made
      ∙ generated_lem tiers s
      ∙ ap (λ (r : Option Error × S). (result_of r.0, r.1)) same
