-- ===== src/Tiers/FileLaws.antt =====
-- What the map of the tiers is after the files have been loaded.
use mathlib.Core.Path.{subst}
use toolchain_common.Base.{
  ok_inj, String, ◌≡◌, refl, ◌∙◌, ap, sym, true, Option, none, some, List, [], ◌∷◌, ◌==◌, string_eq,
  if◌then◌else◌, Result, ok, err, arith, is_some, In, inl, inr, Bool-cases, eq_of_==, ==_refl,
  split, trim_suffix,
}
use toolchain_common.Base.Dict.{Dict, lookup, insert, lookup-insert}
use toolchain_common.Tiers.Files.{
  RawTemplate, BasedOnTier, Scope, Templates, TierData, Tiers, scope_of, new_tier_data, tier_or_new,
  with_based_on, with_file, and_insert, and_scope, and_load, load_parts, load_files,
  revision_or_empty, tier_file, cluster_file, namespace_file, spacerole_file, based_on_tier_file,
}

-- The data of a tier from which nothing has been generated yet.
pub record IsFresh {B O P : Type 0} (tier : String) (d : TierData B O P) : Type 0 where
  pub named : d.name ≡ tier
  pub templates : d.tier_templates ≡ []
  pub objects : d.objects ≡ []
  pub based : is_some d.based_on_tier ≡ is_some d.raw_templates.based_on_tier

abbrev pub AreFresh : {B O P : Type 0} → Tiers B O P → Type 0
AreFresh {B} {O} {P} tiers =
    (tier : String) (d : TierData B O P) → lookup tier tiers ≡ some d → IsFresh tier d

module _ {B O P : Type 0} (unmarshal : B → Result BasedOnTier) where
  tier_or_new-IsFresh :
      (tier : String) (tiers : Tiers B O P) → AreFresh tiers → IsFresh tier (tier_or_new tier tiers)
  unfolding tier_or_new new_tier_data
  tier_or_new-IsFresh tier tiers fresh = by_entry (lookup tier tiers) refl
    where
      by_entry :
          (entry : Option (TierData B O P))
          → lookup tier tiers ≡ entry
          → IsFresh {B = B} {O = O} {P = P} tier
              (elim entry [ some d ↦ d | none ↦ new_tier_data tier ])
      by_entry none found = record { named = refl; templates = refl; objects = refl; based = refl }
      by_entry (some d) found = fresh tier d found

  with_raw-IsFresh :
      (tier : String) (d : TierData B O P) (raw : Templates B)
      → IsFresh tier d
      → is_some raw.based_on_tier ≡ is_some d.raw_templates.based_on_tier
      → IsFresh {B = B} {O = O} {P = P} tier (record d { raw_templates = raw })
  with_raw-IsFresh tier d raw fresh same = record {
    named = fresh.named;
    templates = fresh.templates;
    objects = fresh.objects;
    based = fresh.based ∙ sym same;
  }

  with_based_on-IsFresh :
      (name tier : String) (tmpl : RawTemplate B) (d d' : TierData B O P)
      (based_on : Result BasedOnTier)
      → IsFresh tier d
      → with_based_on unmarshal name tmpl d based_on ≡ ok d'
      → IsFresh tier d'
  with_based_on-IsFresh name tier tmpl d d' (err e) fresh done = ground arith
  with_based_on-IsFresh name tier tmpl d d' (ok b) fresh done =
      subst (λ x. IsFresh {B = B} {O = O} {P = P} tier x) (ok_inj done)
        (record {
          named = fresh.named;
          templates = fresh.templates;
          objects = fresh.objects;
          based = refl;
        })

  with_file-IsFresh :
      (name tier : String) (scope : Scope) (tmpl : RawTemplate B) (d d' : TierData B O P)
      → IsFresh tier d
      → with_file unmarshal name scope tmpl d ≡ ok d'
      → IsFresh tier d'
  unfolding with_file
  with_file-IsFresh name tier tier_file tmpl d d' fresh done =
      subst (λ x. IsFresh {B = B} {O = O} {P = P} tier x) (ok_inj done)
        (with_raw-IsFresh tier d (record d.raw_templates { ns_template_tier = some tmpl }) fresh
          refl)
  with_file-IsFresh name tier cluster_file tmpl d d' fresh done =
      subst (λ x. IsFresh {B = B} {O = O} {P = P} tier x) (ok_inj done)
        (with_raw-IsFresh tier d (record d.raw_templates { cluster_template = some tmpl }) fresh
          refl)
  with_file-IsFresh name tier (namespace_file kind) tmpl d d' fresh done =
      let ns = insert kind tmpl d.raw_templates.namespace_templates in
      subst (λ x. IsFresh {B = B} {O = O} {P = P} tier x) (ok_inj done)
        (with_raw-IsFresh tier d (record d.raw_templates { namespace_templates = ns }) fresh refl)
  with_file-IsFresh name tier (spacerole_file role) tmpl d d' fresh done =
      let roles = insert role tmpl d.raw_templates.spacerole_templates in
      subst (λ x. IsFresh {B = B} {O = O} {P = P} tier x) (ok_inj done)
        (with_raw-IsFresh tier d (record d.raw_templates { spacerole_templates = roles }) fresh
          refl)
  with_file-IsFresh name tier based_on_tier_file tmpl d d' fresh done =
      with_based_on-IsFresh name tier tmpl d d' (unmarshal tmpl.content) fresh done

  -- The two claims about a loading step: the tiers stay fresh, and no tier is lost.
  pub record IsStep (tiers tiers' : Tiers B O P) : Type 0 where
    pub fresh : AreFresh tiers → AreFresh tiers'
    pub kept :
        (tier : String) → is_some (lookup tier tiers) ≡ true → is_some (lookup tier tiers') ≡ true

  insert-IsStep :
      (tier : String) (d : TierData B O P) (tiers : Tiers B O P)
      → (AreFresh tiers → IsFresh tier d)
      → IsStep tiers (insert tier d tiers)
  insert-IsStep tier d tiers fresh = record {
    fresh = λ all j d' found.
        inserted j d' (fresh all) all (sym (lookup-insert j tier d tiers) ∙ found);
    kept = λ j there. ground (arith, lookup-insert j tier d tiers);
  }
    where
      inserted :
          (j : String) (d' : TierData B O P)
          → IsFresh tier d
          → AreFresh tiers
          → (if j == tier then some d else lookup j tiers) ≡ some d'
          → IsFresh j d'
      inserted j d' new all found = elim (Bool-cases (j == tier)) [
        | inl same ↦
            subst (λ n. IsFresh {B = B} {O = O} {P = P} n d') (sym (eq_of_== j tier same))
              (subst (λ x. IsFresh {B = B} {O = O} {P = P} tier x) (ground arith) new)
        | inr other ↦ all j d' (ground arith)
      ]

  -- A name of two parts whose second is known, in front of a tier that is there.
  pub record IsDispatched (name : String) (tiers : Tiers B O P) : Type 0 where
    pub tier : String
    pub filename : String
    pub parts : split "/" name ≡ tier ∷ filename ∷ []
    pub known : is_some (scope_of filename) ≡ true
    pub there : is_some (lookup tier tiers) ≡ true

  load_parts_lem :
      (metadata : Dict String String) (name : String) (content : B) (parts : List String)
      (tiers tiers' : Tiers B O P)
      → split "/" name ≡ parts
      → load_parts unmarshal metadata name content parts tiers ≡ ok tiers'
      → IsStep tiers tiers' × IsDispatched name tiers'
  unfolding load_parts
  load_parts_lem metadata name content [] tiers tiers' is done = ground arith
  load_parts_lem metadata name content (a ∷ []) tiers tiers' is done = ground arith
  load_parts_lem metadata name content (a ∷ b ∷ c ∷ rest) tiers tiers' is done = ground arith
  load_parts_lem metadata name content (tier ∷ filename ∷ []) tiers tiers' is done =
      by_scope (scope_of filename) refl done
    where
      tmpl : RawTemplate B
      tmpl = record {
        revision = revision_or_empty (lookup (trim_suffix name ".yaml") metadata);
        content = content;
      }

      by_data :
          (scope : Scope) (made : Result (TierData B O P))
          → with_file unmarshal name scope tmpl (tier_or_new tier tiers) ≡ made
          → is_some (scope_of filename) ≡ true
          → and_insert unmarshal tier tiers made ≡ ok tiers'
          → IsStep tiers tiers' × IsDispatched name tiers'
      by_data scope (err e) same known done = ground arith
      by_data scope (ok d) same known done =
          subst (λ x. IsStep tiers x × IsDispatched name x) (ok_inj done)
            (
              insert-IsStep tier d tiers (λ all.
                  with_file-IsFresh name tier scope tmpl (tier_or_new tier tiers) d
                    (tier_or_new-IsFresh tier tiers all) same),
              record {
                tier = tier;
                filename = filename;
                parts = is;
                known = known;
                there = ground (arith, lookup-insert tier tier d tiers, ==_refl tier);
              },
            )

      by_scope :
          (scope : Option Scope)
          → scope_of filename ≡ scope
          → and_scope unmarshal name tier scope tmpl tiers ≡ ok tiers'
          → IsStep tiers tiers' × IsDispatched name tiers'
      by_scope none same done = ground arith
      by_scope (some scope) same done =
          by_data scope (with_file unmarshal name scope tmpl (tier_or_new tier tiers)) refl
            (ap is_some same) done

  IsDispatched-kept :
      (name : String) (tiers tiers' : Tiers B O P)
      → IsStep tiers tiers'
      → IsDispatched name tiers
      → IsDispatched name tiers'
  IsDispatched-kept name tiers tiers' step at = record {
    tier = at.tier;
    filename = at.filename;
    parts = at.parts;
    known = at.known;
    there = step.kept at.tier at.there;
  }

  compose-IsStep : (a b c : Tiers B O P) → IsStep a b → IsStep b c → IsStep a c
  compose-IsStep a b c first second = record {
    fresh = λ all. second.fresh (first.fresh all);
    kept = λ tier there. second.kept tier (first.kept tier there);
  }

  pub load_files_lem :
      (metadata : Dict String String) (files : Dict String B) (tiers tiers' : Tiers B O P)
      → load_files unmarshal metadata files tiers ≡ ok tiers'
      → IsStep tiers tiers'
        × ((name : String) (content : B) → In (name, content) files → IsDispatched name tiers')
  unfolding load_files
  load_files_lem metadata [] tiers tiers' done = (
    subst (λ x. IsStep tiers x) (ok_inj done)
        (record { fresh = λ all. all; kept = λ tier there. there }),
    λ name content none. absurd none,
  )
  load_files_lem metadata ((n, c) ∷ files) tiers tiers' done =
      by_file (λ between rest. load_files_lem metadata files between tiers' rest)
        (load_parts unmarshal metadata n c (split "/" n) tiers) refl done
    where
      by_file :
          ((between : Tiers B O P)
            → load_files unmarshal metadata files between ≡ ok tiers'
            → IsStep between tiers'
              × ((name : String) (content : B)
                  → In (name, content) files
                  → IsDispatched name tiers'))
          → (r : Result (Tiers B O P)) → load_parts unmarshal metadata n c (split "/" n) tiers ≡ r
          → and_load unmarshal (λ results. load_files unmarshal metadata files results) r
            ≡ ok tiers'
          → IsStep tiers tiers'
            × ((name : String) (content : B)
                → In (name, content) ((n, c) ∷ files)
                → IsDispatched name tiers')
      by_file ih (err e) same done = ground arith
      by_file ih (ok between) same done =
          let (step, at) = load_parts_lem metadata n c (split "/" n) tiers between refl same in
          let (steps, more) = ih between done in
          (
            compose-IsStep tiers between tiers' step steps,
            λ name content there. elim there [
              | inl now ↦
                  subst (λ x. IsDispatched x tiers') (ap (λ p. p.0) (sym now))
                    (IsDispatched-kept n between tiers' steps at)
              | inr later ↦ more name content later
            ],
          )
