-- ===== src/Tiers/InitLaws.antt =====
-- `initTierTemplates` on the map of all tiers: what each tier gets, and that no nil pointer is read.
use mathlib.Core.Path.{subst}
use toolchain_common.Base.{
  String, ◌≡◌, refl, ◌∙◌, ap, sym, true, false, Option, none, some, List, [], ◌==◌, string_eq,
  if◌then◌else◌, Result, ok, arith, All, is_some, inl, inr, ◌⊎◌, eq_of_==, ne_of_==, Bool-cases,
  map,
}
use toolchain_common.Base.Dict.{lookup, insert, lookup-insert}
use toolchain_common.Templates.Process.{Parameter}
use toolchain_common.Tiers.Files.{
  BasedOnTier, RawTemplate, Templates, TierTemplate, TierData, Tiers,
}
use toolchain_common.Tiers.TierTemplates.{
  Generator, Outcome, returned, panicked, new_tier_templates, from_source, tier_templates_of,
}
use toolchain_common.Tiers.TemplateLaws.{
  IsOwn, types_of, AreSorted, AreOf, new_tier_templates-AreOf,
}

pub returned_inj :
    {A : Type 0} {a b : Result A} → ◌≡◌ {A = Outcome A} (returned a) (returned b) → a ≡ b
returned_inj {A} {a} {b} same =
    ap (λ (o : Outcome A). elim o [ returned r ↦ r | panicked ↦ a ]) same

abbrev pub raw_of_entry : {B O P : Type 0} → Option (TierData B O P) → Option (Templates B)
raw_of_entry none = none
raw_of_entry (some d) = some d.raw_templates

abbrev pub source_entry :
    {B O P : Type 0} → Tiers B O P → TierData B O P → Option BasedOnTier → Option (TierData B O P)
source_entry tiers d none = some d
source_entry tiers d (some based) = lookup based.from tiers

-- The files from which the templates of a tier are made: its own, or those of the tier it is based on.
abbrev pub raw_of : {B O P : Type 0} → Tiers B O P → TierData B O P → Option (Templates B)
raw_of tiers d = raw_of_entry (source_entry tiers d d.based_on_tier)

-- The tier's TierTemplates are those of its source, as `newTierTemplates` makes them.
pub record HasTemplates {B O P : Type 0} (t : Generator B O P) (tiers : Tiers B O P) (tier : String)
    (d : TierData B O P) : Type 0 where
  pub source : Templates B
  pub is_source : raw_of tiers d ≡ some source
  pub types : map (λ tmpl. tmpl.type) d.tier_templates ≡ types_of t source
  pub own : All (IsOwn t tier) d.tier_templates

abbrev pub Finished : {B O P : Type 0} → Generator B O P → Tiers B O P → String → Type 0
Finished {B} {O} {P} t tiers tier =
    (d : TierData B O P) → lookup tier tiers ≡ some d → HasTemplates t tiers tier d

-- What is read of a tier that is based on another: its own template of the based_on_tier file, and the
-- other tier.
abbrev pub HasBase :
    {B O P : Type 0} → Tiers B O P → Option (RawTemplate B) → Option BasedOnTier → Type 0
HasBase tiers file none = Unit {0}
HasBase tiers file (some based) = (is_some file ≡ true) × (is_some (lookup based.from tiers) ≡ true)

-- Each tier that is based on another has the template of its based_on_tier file, and the other is there.
abbrev pub HasSources : {B O P : Type 0} → Tiers B O P → Type 0
HasSources {B} {O} {P} tiers =
    (tier : String) (d : TierData B O P)
    → lookup tier tiers ≡ some d
    → HasBase tiers d.raw_templates.based_on_tier d.based_on_tier

module _ {B O P : Type 0} (t : Generator B O P) (sorted : AreSorted t) where
  -- A tier gets its templates.
  abbrev pub with_templates : TierData B O P → List (TierTemplate O) → TierData B O P
  with_templates d tmpls = record d { tier_templates = tmpls }

  module _ (tiers : Tiers B O P) (tier : String) (d : TierData B O P)
      (here : lookup tier tiers ≡ some d) (tmpls : List (TierTemplate O)) where
    raw-insert :
        (j : String)
        → raw_of_entry (lookup j (insert tier (with_templates d tmpls) tiers))
          ≡ raw_of_entry (lookup j tiers)
    raw-insert j =
        ap raw_of_entry (lookup-insert j tier (with_templates d tmpls) tiers)
        ∙ elim (Bool-cases (j == tier)) [
          | inl same ↦
              rw same
                (sym (ap raw_of_entry (ap (λ n. lookup n tiers) (eq_of_== j tier same) ∙ here)))
          | inr other ↦ rw other refl
        ]

    pub raw_of-insert :
        (x : TierData B O P)
        → raw_of (insert tier (with_templates d tmpls) tiers) x ≡ raw_of tiers x
    raw_of-insert x = by_base x.based_on_tier
      where
        by_base :
            (based : Option BasedOnTier)
            → raw_of_entry (source_entry (insert tier (with_templates d tmpls) tiers) x based)
              ≡ raw_of_entry (source_entry tiers x based)
        by_base none = refl
        by_base (some b) = raw-insert b.from

    pub raw_of-with_templates :
        (based : Option BasedOnTier)
        → raw_of_entry (source_entry tiers (with_templates d tmpls) based)
          ≡ raw_of_entry (source_entry tiers d based)
    raw_of-with_templates none = refl
    raw_of-with_templates (some b) = refl

    -- One round of the loop, with the templates of a source.
    module _ (source : Templates B) (is_source : raw_of tiers d ≡ some source)
        (made : AreOf t "" tier [] (types_of t source) tmpls) where
      round-HasTemplates :
          (x : TierData B O P)
          → with_templates d tmpls ≡ x
          → HasTemplates t (insert tier (with_templates d tmpls) tiers) tier x
      round-HasTemplates x same =
          subst (λ y. HasTemplates t (insert tier (with_templates d tmpls) tiers) tier y) same
            (record {
              source = source;
              is_source =
                  raw_of-insert (with_templates d tmpls)
                  ∙ raw_of-with_templates d.based_on_tier
                  ∙ is_source;
              types = made.0;
              own = made.1;
            })

      pub round-Finished :
          (j : String)
          → (j ≡ tier) ⊎ Finished t tiers j
          → Finished t (insert tier (with_templates d tmpls) tiers) j
      round-Finished j due x found =
          by_key (Bool-cases (j == tier))
            (sym (lookup-insert j tier (with_templates d tmpls) tiers) ∙ found) due
        where
          Goal : Type 0
          Goal = HasTemplates t (insert tier (with_templates d tmpls) tiers) j x

          at_tier : (j == tier) ≡ true → with_templates d tmpls ≡ x → Goal
          at_tier same is =
              subst (λ n. HasTemplates t (insert tier (with_templates d tmpls) tiers) n x)
                (sym (eq_of_== j tier same)) (round-HasTemplates x is)

          kept : HasTemplates t tiers j x → Goal
          kept has = record {
            source = has.source;
            is_source = raw_of-insert x ∙ has.is_source;
            types = has.types;
            own = has.own;
          }

          by_key :
              ((j == tier) ≡ true) ⊎ ((j == tier) ≡ false)
              → (if j == tier then some (with_templates d tmpls) else lookup j tiers) ≡ some x
              → (j ≡ tier) ⊎ Finished t tiers j
              → Goal
          by_key (inl same) is due = at_tier same (ground arith)
          by_key (inr other) is (inl now) = absurd (ne_of_== j tier other now)
          by_key (inr other) is (inr finished) = kept (finished x (ground arith))

  -- What a round makes of a tier.
  new_templates-AreOf :
      (file_revision tier : String) (parameters : List Parameter) (source : TierData B O P)
      (tmpls : List (TierTemplate O))
      → ◌≡◌ {A = Outcome (List (TierTemplate O))}
          (returned (new_tier_templates t file_revision source tier parameters))
          (returned (ok tmpls))
      → AreOf t "" tier [] (types_of t source.raw_templates) tmpls
  new_templates-AreOf file_revision tier parameters source tmpls done =
      new_tier_templates-AreOf t file_revision tier parameters source tmpls sorted
        (returned_inj done)

  from_source-AreOf :
      (file : Option (RawTemplate B)) (tier : String) (parameters : List Parameter)
      (source : Option (TierData B O P)) (tmpls : List (TierTemplate O))
      → from_source t file tier parameters source ≡ returned (ok tmpls)
      → (raw : Templates B) × (raw_of_entry source ≡ some raw)
        × AreOf t "" tier [] (types_of t raw) tmpls
  from_source-AreOf none tier parameters source tmpls done = ground arith
  from_source-AreOf (some x) tier parameters none tmpls done = ground arith
  from_source-AreOf (some x) tier parameters (some source) tmpls done =
      (source.raw_templates, refl, new_templates-AreOf x.revision tier parameters source tmpls done)

  pub tier_templates_of-AreOf :
      (tiers : Tiers B O P) (tier : String) (d : TierData B O P) (tmpls : List (TierTemplate O))
      → tier_templates_of t tiers tier d ≡ returned (ok tmpls)
      → (raw : Templates B) × (raw_of tiers d ≡ some raw)
        × AreOf t "" tier [] (types_of t raw) tmpls
  unfolding tier_templates_of
  tier_templates_of-AreOf tiers tier d tmpls done = by_base d.based_on_tier done
    where
      by_base :
          (based : Option BasedOnTier)
          → (elim based [
            | none ↦ returned (new_tier_templates t "" d tier [])
            | some b ↦
                from_source t d.raw_templates.based_on_tier tier b.parameters (lookup b.from tiers)
          ])
            ≡ returned (ok tmpls)
          → (raw : Templates B) × (raw_of_entry (source_entry tiers d based) ≡ some raw)
            × AreOf t "" tier [] (types_of t raw) tmpls
      by_base none done = (d.raw_templates, refl, new_templates-AreOf "" tier [] d tmpls done)
      by_base (some b) done =
          from_source-AreOf d.raw_templates.based_on_tier tier b.parameters (lookup b.from tiers)
            tmpls done
