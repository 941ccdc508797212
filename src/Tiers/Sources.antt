-- ===== src/Tiers/Sources.antt =====
-- The loop of `initTierTemplates` on the map of all tiers: what each tier gets, and when no nil pointer
-- is read.
use mathlib.Core.Path.{subst}
use toolchain_common.Base.{
  some_inj, ok_inj, String, ◌≡◌, ◌≢◌, refl, ◌∙◌, ap, sym, true, false, Option, none, some, List, [],
  ◌∷◌, ◌==◌, string_eq, if◌then◌else◌, ok, err, arith, is_some, In, inl, inr, ◌⊎◌, eq_of_==,
  Bool-cases,
}
use toolchain_common.Base.Dict.{lookup, insert, lookup-insert}
use toolchain_common.Templates.Process.{Parameter}
use toolchain_common.Tiers.Files.{BasedOnTier, RawTemplate, TierTemplate, TierData, Tiers}
use toolchain_common.Tiers.TierTemplates.{
  Generator, Outcome, returned, panicked, keys, from_source, tier_templates_of, and_tier_templates,
  init_loop, init_tier_templates, new_tier_templates,
}
use toolchain_common.Tiers.TemplateLaws.{AreSorted, listed_key}
use toolchain_common.Tiers.InitLaws.{
  Finished, HasBase, HasSources, with_templates, round-Finished, tier_templates_of-AreOf,
  returned_inj,
}

module _ {B O P : Type 0} (t : Generator B O P) (sorted : AreSorted t) where
  -- What the rest of the loop does.
  abbrev Finishes : List String → Tiers B O P → Tiers B O P → Type 0
  Finishes names tiers tiers' =
      ((j : String) → In j names ⊎ Finished t tiers j → Finished t tiers' j)
      × ((j : String) → is_some (lookup j tiers') ≡ true → is_some (lookup j tiers) ≡ true)

  round-Finishes :
      (tier : String) (names : List String) (tiers tiers' : Tiers B O P) (d : TierData B O P)
      (made : Outcome (List (TierTemplate O)))
      → lookup tier tiers ≡ some d
      → tier_templates_of t tiers tier d ≡ made
      → ((between : Tiers B O P)
          → init_loop t names between ≡ returned (ok tiers')
          → Finishes names between tiers')
      → and_tier_templates t tier d tiers (λ between. init_loop t names between) made
        ≡ returned (ok tiers')
      → Finishes (tier ∷ names) tiers tiers'
  round-Finishes tier names tiers tiers' d panicked here is ih done = ground arith
  round-Finishes tier names tiers tiers' d (returned (err e)) here is ih done = ground arith
  round-Finishes tier names tiers tiers' d (returned (ok tmpls)) here is ih done =
      let x = with_templates t sorted d tmpls in
      let (source, is_source, made) = tier_templates_of-AreOf t sorted tiers tier d tmpls is in
      let (finishes, kept) = ih (insert tier x tiers) done in
      let round = round-Finished t sorted tiers tier d here tmpls source is_source made in
      (
        λ j due. finishes j (elim due [
          | inl (inl now) ↦ inr (round j (inl now))
          | inl (inr later) ↦ inl later
          | inr finished ↦ inr (round j (inr finished))
        ]),
        λ j there. ground (arith, kept j there, lookup-insert j tier x tiers, eq_of_== j tier),
      )

  init_loop-Finishes :
      (names : List String) (tiers tiers' : Tiers B O P)
      → init_loop t names tiers ≡ returned (ok tiers')
      → Finishes names tiers tiers'
  unfolding init_loop
  init_loop-Finishes [] tiers tiers' done =
      subst (λ x. Finishes [] tiers x) (ok_inj (returned_inj done))
        (λ j due. elim due [ inl h ↦ absurd h | inr finished ↦ finished ], λ j there. there)
  init_loop-Finishes (tier ∷ names) tiers tiers' done =
      by_entry (λ between rest. init_loop-Finishes names between tiers' rest) (lookup tier tiers)
        refl done
    where
      by_entry :
          ((between : Tiers B O P)
            → init_loop t names between ≡ returned (ok tiers')
            → Finishes names between tiers')
          → (entry : Option (TierData B O P)) → lookup tier tiers ≡ entry
          → (elim entry [
            | none ↦ panicked
            | some d ↦
                and_tier_templates t tier d tiers
                  (λ between. init_loop t names between)
                  (tier_templates_of t tiers tier d)
          ])
            ≡ returned (ok tiers')
          → Finishes (tier ∷ names) tiers tiers'
      by_entry ih none here done = ground arith
      by_entry ih (some d) here done =
          round-Finishes tier names tiers tiers' d (tier_templates_of t tiers tier d) here refl ih
            done

  -- The loop over the sorted names goes over every key.
  keyed : (tiers : Tiers B O P) (k : String) → is_some (lookup k tiers) ≡ true → In k (keys tiers)
  unfolding lookup
  keyed [] k there = ground arith
  keyed ((j, d) ∷ tiers) k there = elim (Bool-cases (k == j)) [
    | inl same ↦ inl (eq_of_== k j same)
    | inr other ↦ inr (keyed tiers k (ground arith))
  ]

  -- When the TierTemplates of all tiers are made without an error, every tier of the map then has those of
  -- its source, which is the tier it is based on or else itself: one for each namespace and each space role
  -- of the source and one for its cluster resources, in the generator's namespace, belonging to the tier
  -- and named by it. The sorting returns the keys that it is given.
  pub init_tier_templates-Finished :
      (tiers tiers' : Tiers B O P) (tier : String)
      → init_tier_templates t tiers ≡ returned (ok tiers')
      → Finished t tiers' tier
  unfolding init_tier_templates
  init_tier_templates-Finished tiers tiers' tier done d found =
      let (finishes, kept) = init_loop-Finishes (t.sort_strings (keys tiers)) tiers tiers' done in
      let key = keyed tiers tier (kept tier (ap is_some found)) in
      finishes tier (inl ((sorted tier (keys tiers)).1 key)) d found

  is_some-insert :
      (tiers : Tiers B O P) (tier j : String) (x : TierData B O P)
      → is_some (lookup j tiers) ≡ true
      → is_some (lookup j (insert tier x tiers)) ≡ true
  is_some-insert tiers tier j x there = ground (arith, lookup-insert j tier x tiers)

  HasBase-insert :
      (tiers : Tiers B O P) (tier : String) (x : TierData B O P) (file : Option (RawTemplate B))
      (based : Option BasedOnTier)
      → HasBase tiers file based
      → HasBase (insert tier x tiers) file based
  HasBase-insert tiers tier x file none has = tt
  HasBase-insert tiers tier x file (some b) (read, there) =
      (read, is_some-insert tiers tier b.from x there)

  HasSources-insert :
      (tiers : Tiers B O P) (tier : String) (d : TierData B O P) (tmpls : List (TierTemplate O))
      → lookup tier tiers ≡ some d
      → HasSources tiers
      → HasSources (insert tier (with_templates t sorted d tmpls) tiers)
  HasSources-insert tiers tier d tmpls here sources j x found =
      HasBase-insert tiers tier (with_templates t sorted d tmpls) x.raw_templates.based_on_tier
        x.based_on_tier
        (by_key (Bool-cases (j == tier))
          (sym (lookup-insert j tier (with_templates t sorted d tmpls) tiers) ∙ found))
    where
      by_key :
          ((j == tier) ≡ true) ⊎ ((j == tier) ≡ false)
          → (if j == tier then some (with_templates t sorted d tmpls) else lookup j tiers) ≡ some x
          → HasBase tiers x.raw_templates.based_on_tier x.based_on_tier
      by_key (inr other) is = sources j x (ground arith)
      by_key (inl same) is =
          let kept : with_templates t sorted d tmpls ≡ x = some_inj (ground arith) in
          subst
            (λ (y : TierData B O P). HasBase tiers y.raw_templates.based_on_tier y.based_on_tier)
            kept (sources tier d here)

  from_source_returns :
      (file : Option (RawTemplate B)) (tier : String) (parameters : List Parameter)
      (source : Option (TierData B O P))
      → is_some file ≡ true
      → is_some source ≡ true
      → from_source t file tier parameters source ≢ panicked
  from_source_returns none tier parameters source read there = ground arith
  from_source_returns (some file) tier parameters none read there = ground arith
  from_source_returns (some file) tier parameters (some x) read there = λ stuck. ground arith

  tier_templates_of_returns :
      (tiers : Tiers B O P) (tier : String) (d : TierData B O P)
      → HasBase tiers d.raw_templates.based_on_tier d.based_on_tier
      → tier_templates_of t tiers tier d ≢ panicked
  unfolding tier_templates_of
  tier_templates_of_returns tiers tier d has = by_base d.based_on_tier has
    where
      by_base :
          (based : Option BasedOnTier)
          → HasBase tiers d.raw_templates.based_on_tier based
          → (elim based [
            | none ↦ returned (new_tier_templates t "" d tier [])
            | some b ↦
                from_source t d.raw_templates.based_on_tier tier b.parameters (lookup b.from tiers)
          ])
            ≢ panicked
      by_base none has = λ stuck. ground arith
      by_base (some b) (read, there) =
          from_source_returns d.raw_templates.based_on_tier tier b.parameters (lookup b.from tiers)
            read there

  init_loop_returns :
      (names : List String) (tiers : Tiers B O P)
      → HasSources tiers
      → ((j : String) → In j names → is_some (lookup j tiers) ≡ true)
      → init_loop t names tiers ≢ panicked
  unfolding init_loop
  init_loop_returns [] tiers sources listed = λ stuck. ground arith
  init_loop_returns (tier ∷ names) tiers sources listed =
      by_entry (λ between s l. init_loop_returns names between s l) (lookup tier tiers) refl
        (listed tier (inl refl))
    where
      Rest : Type 0
      Rest =
          (between : Tiers B O P)
          → HasSources between
          → ((j : String) → In j names → is_some (lookup j between) ≡ true)
          → init_loop t names between ≢ panicked

      by_made :
          Rest
          → (d : TierData B O P) (made : Outcome (List (TierTemplate O)))
          → lookup tier tiers ≡ some d
          → made ≢ panicked
          → and_tier_templates t tier d tiers (λ between. init_loop t names between) made ≢ panicked
      by_made ih d panicked here is = absurd (is refl)
      by_made ih d (returned (err e)) here is = λ stuck. ground arith
      by_made ih d (returned (ok tmpls)) here is =
          ih (insert tier (with_templates t sorted d tmpls) tiers)
            (HasSources-insert tiers tier d tmpls here sources)
            (λ j there. ground (
              arith,
              listed j (inr there),
              lookup-insert j tier (with_templates t sorted d tmpls) tiers,
            ))

      by_entry :
          Rest
          → (entry : Option (TierData B O P)) → lookup tier tiers ≡ entry
          → is_some entry ≡ true
          → (elim entry [
            | none ↦ panicked
            | some d ↦
                and_tier_templates t tier d tiers
                  (λ between. init_loop t names between)
                  (tier_templates_of t tiers tier d)
          ])
            ≢ panicked
      by_entry ih none here there = ground arith
      by_entry ih (some d) here there =
          by_made ih d (tier_templates_of t tiers tier d) here
            (tier_templates_of_returns tiers tier d (sources tier d here))

  -- If each tier that is based on another has the template of its based_on_tier file, and the other tier
  -- is there, and the sorting returns the keys that it is given, then the TierTemplates are made or an
  -- error is returned: no nil pointer is read.
  pub init_tier_templates_returns :
      (tiers : Tiers B O P) → HasSources tiers → init_tier_templates t tiers ≢ panicked
  unfolding init_tier_templates
  init_tier_templates_returns tiers sources =
      init_loop_returns (t.sort_strings (keys tiers)) tiers sources
        (λ j there. listed_key tiers j ((sorted j (keys tiers)).0 there))
