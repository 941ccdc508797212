-- ===== src/Tiers/TemplateLaws.antt =====
-- The TierTemplates that `newTierTemplates` makes of the files of one tier.
use mathlib.Core.Path.{subst, ap₂}
use toolchain_common.Base.{
  ok_inj, String, ◌<>◌, ◌≡◌, refl, ◌∙◌, ap, true, Option, none, some, List, [], ◌∷◌, ◌++◌, map,
  string_eq, Result, ok, err, arith, All, is_some, In, inl, inr, ==_refl, ◌↔◌,
}
use toolchain_common.Base.Dict.{Dict, lookup}
use toolchain_common.Templates.Process.{Parameter, Template}
use toolchain_common.Tiers.Files.{RawTemplate, Templates, TierTemplate, TierData}
use toolchain_common.Tiers.TierTemplates.{
  Generator, keys, decoded, and_template, and_templates, new_tier_template_name, new_tier_template,
  new_templates_of, new_cluster_template, new_tier_templates, tier_template_revision,
}

-- A TierTemplate in the generator's namespace, of a tier and named by it, its type and its revision.
pub record IsOwn {B O P : Type 0} (t : Generator B O P) (tier : String) (tmpl : TierTemplate O)
    : Type 0 where
  pub namespace : tmpl.namespace ≡ t.namespace
  pub tier_name : tmpl.tier_name ≡ tier
  pub name : tmpl.name ≡ t.to_lower (tier <> ("-" <> (tmpl.type <> ("-" <> tmpl.revision))))

abbrev pub cluster_types : {B : Type 0} → String → Option (RawTemplate B) → List String
cluster_types type none = []
cluster_types type (some _) = type ∷ []

-- The types of the TierTemplates of a tier, in their order.
abbrev pub types_of : {B O P : Type 0} → Generator B O P → Templates B → List String
types_of t raw =
    t.sort_strings (keys raw.namespace_templates)
    ++ (t.sort_strings (keys raw.spacerole_templates)
        ++ cluster_types t.cluster_resources_template_type raw.cluster_template)

abbrev pub AreListed : {V : Type 0} → Dict String V → List String → Type 0
AreListed raw [] = Unit
AreListed raw (k ∷ ks) = (is_some (lookup k raw) ≡ true) × AreListed raw ks

-- What is documented of `sort.Strings`: it orders the elements of a slice in place.
abbrev pub AreSorted : {B O P : Type 0} → Generator B O P → Type 0
AreSorted t = (k : String) (ks : List String) → In k (t.sort_strings ks) ↔ In k ks

pub listed_key :
    {V : Type 0} (d : Dict String V) (k : String) → In k (keys d) → is_some (lookup k d) ≡ true
unfolding lookup
listed_key [] k there = absurd there
listed_key ((j, v) ∷ d) k (inl here) = ground (arith, ==_refl k)
listed_key ((j, v) ∷ d) k (inr later) = ground (arith, listed_key d k later)

listed_keys :
    {V : Type 0} (d : Dict String V) (ks : List String)
    → ((k : String) → In k ks → is_some (lookup k d) ≡ true)
    → AreListed d ks
listed_keys d [] all = tt
listed_keys d (k ∷ ks) all = (all k (inl refl), listed_keys d ks (λ j there. all j (inr there)))

pub AreListed-sorted :
    {B O P V : Type 0} (t : Generator B O P)
    → AreSorted t
    → (d : Dict String V) → AreListed d (t.sort_strings (keys d))
AreListed-sorted t sorted d =
    listed_keys d (t.sort_strings (keys d))
      (λ k there. listed_key d k ((sorted k (keys d)).0 there))

All-append : {A : Type 0} (Q : A → Type 0) (xs ys : List A) → All Q xs → All Q ys → All Q (xs ++ ys)
All-append Q [] ys all all' = all'
All-append Q (x ∷ xs) ys (q, all) all' = (q, All-append Q xs ys all all')

map-append_types :
    {O : Type 0} (xs ys : List (TierTemplate O))
    → map (λ tmpl. tmpl.type) (xs ++ ys) ≡ map (λ tmpl. tmpl.type) xs ++ map (λ tmpl. tmpl.type) ys
map-append_types [] ys = refl
map-append_types (x ∷ xs) ys = ap (◌∷◌ x.type) (map-append_types xs ys)

module _ {B O P : Type 0} (t : Generator B O P) (file_revision tier : String)
    (parameters : List Parameter) where
  -- The templates have these types and are the tier's own.
  abbrev pub AreOf : List String → List (TierTemplate O) → Type 0
  AreOf types tmpls = (map (λ tmpl. tmpl.type) tmpls ≡ types) × All (IsOwn t tier) tmpls

  decoded-IsOwn :
      (revision kind : String) (content : Result (Template O)) (tmpl : TierTemplate O)
      → decoded t revision tier kind parameters content ≡ ok tmpl
      → (tmpl.type ≡ kind) × IsOwn t tier tmpl
  unfolding new_tier_template_name
  decoded-IsOwn revision kind (err e) tmpl done = ground arith
  decoded-IsOwn revision kind (ok o) tmpl done =
      subst (λ x. (x.type ≡ kind) × IsOwn t tier x) (ok_inj done)
        (refl, record { namespace = refl; tier_name = refl; name = refl })

  and_template-AreOf :
      (kind : String) (kinds : List String) (one : Result (TierTemplate O))
      (rest : Result (List (TierTemplate O))) (tmpls : List (TierTemplate O))
      → ((tmpl : TierTemplate O) → one ≡ ok tmpl → (tmpl.type ≡ kind) × IsOwn t tier tmpl)
      → ((more : List (TierTemplate O)) → rest ≡ ok more → AreOf kinds more)
      → and_template t one rest ≡ ok tmpls
      → AreOf (kind ∷ kinds) tmpls
  and_template-AreOf kind kinds (err e) rest tmpls own owns done = ground arith
  and_template-AreOf kind kinds (ok tmpl) (err e) tmpls own owns done = ground arith
  and_template-AreOf kind kinds (ok tmpl) (ok more) tmpls own owns done =
      let (typed, one) = own tmpl refl in
      let (types, all) = owns more refl in
      subst (λ x. AreOf (kind ∷ kinds) x) (ok_inj done) (cc (typed, types), (one, all))

  new_templates_of-AreOf :
      (raw : Dict String (RawTemplate B)) (kinds : List String) (tmpls : List (TierTemplate O))
      → AreListed raw kinds
      → new_templates_of t file_revision tier parameters raw kinds ≡ ok tmpls
      → AreOf kinds tmpls
  unfolding new_templates_of new_tier_template
  new_templates_of-AreOf raw [] tmpls listed done = subst (λ x. AreOf [] x) (ok_inj done) (refl, tt)
  new_templates_of-AreOf raw (kind ∷ kinds) tmpls (here, listed) done =
      by_entry (λ more ok_rest. new_templates_of-AreOf raw kinds more listed ok_rest)
        (lookup kind raw) here done
    where
      by_entry :
          ((more : List (TierTemplate O))
            → new_templates_of t file_revision tier parameters raw kinds ≡ ok more
            → AreOf kinds more)
          → (entry : Option (RawTemplate B)) → is_some entry ≡ true
          → (elim entry [
            | none ↦ new_templates_of t file_revision tier parameters raw kinds
            | some tmpl ↦
                and_template t
                  (new_tier_template t file_revision tier kind tmpl parameters)
                  (new_templates_of t file_revision tier parameters raw kinds)
          ])
            ≡ ok tmpls
          → AreOf (kind ∷ kinds) tmpls
      by_entry ih none there done = ground arith
      by_entry ih (some x) there done =
          and_template-AreOf kind kinds (new_tier_template t file_revision tier kind x parameters)
            (new_templates_of t file_revision tier parameters raw kinds) tmpls
            (decoded-IsOwn (tier_template_revision t file_revision x.revision) kind
              (t.decode x.content))
            ih done

  new_cluster_template-AreOf :
      (raw : Option (RawTemplate B)) (tmpls : List (TierTemplate O))
      → new_cluster_template t file_revision tier parameters raw ≡ ok tmpls
      → AreOf (cluster_types t.cluster_resources_template_type raw) tmpls
  unfolding new_cluster_template new_tier_template
  new_cluster_template-AreOf none tmpls done = subst (λ x. AreOf [] x) (ok_inj done) (refl, tt)
  new_cluster_template-AreOf (some x) tmpls done =
      let type = t.cluster_resources_template_type in
      and_template-AreOf type [] (new_tier_template t file_revision tier type x parameters) (ok [])
        tmpls
        (decoded-IsOwn (tier_template_revision t file_revision x.revision) type
          (t.decode x.content))
        (λ more same. subst (λ y. AreOf [] y) (ok_inj same) (refl, tt)) done

  append-AreOf :
      (ks ls : List String) (xs ys : List (TierTemplate O))
      → AreOf ks xs
      → AreOf ls ys
      → AreOf (ks ++ ls) (xs ++ ys)
  append-AreOf ks ls xs ys (types, all) (types', all') =
      (map-append_types xs ys ∙ ap₂ (◌++◌) types types', All-append (IsOwn t tier) xs ys all all')

  and_templates-AreOf :
      (ks ls : List String) (one two : Result (List (TierTemplate O)))
      (tmpls : List (TierTemplate O))
      → ((more : List (TierTemplate O)) → one ≡ ok more → AreOf ks more)
      → ((more : List (TierTemplate O)) → two ≡ ok more → AreOf ls more)
      → and_templates t one two ≡ ok tmpls
      → AreOf (ks ++ ls) tmpls
  and_templates-AreOf ks ls (err e) two tmpls first second done = ground arith
  and_templates-AreOf ks ls (ok xs) (err e) tmpls first second done = ground arith
  and_templates-AreOf ks ls (ok xs) (ok ys) tmpls first second done =
      subst (λ x. AreOf (ks ++ ls) x) (ok_inj done)
        (append-AreOf ks ls xs ys (first xs refl) (second ys refl))

  -- When the TierTemplates of a tier are made without an error, there is one for each namespace of the source tier,
  -- in sorted order, then one for each space role, in sorted order, and then one for the cluster
  -- resources if the source has them. Each is in the generator's namespace, belongs to the tier, and
  -- has the name made of the tier, its type and its revision. The sorting returns keys that it is given.
  pub new_tier_templates-AreOf :
      (source : TierData B O P) (tmpls : List (TierTemplate O))
      → AreSorted t
      → new_tier_templates t file_revision source tier parameters ≡ ok tmpls
      → AreOf (types_of t source.raw_templates) tmpls
  unfolding new_tier_templates
  new_tier_templates-AreOf source tmpls sorted done =
      let raw = source.raw_templates in
      let ns = t.sort_strings (keys raw.namespace_templates) in
      let roles = t.sort_strings (keys raw.spacerole_templates) in
      let cluster = new_cluster_template t file_revision tier parameters raw.cluster_template in
      let of_roles =
        new_templates_of t file_revision tier parameters raw.spacerole_templates roles in
      and_templates-AreOf ns
        (roles ++ cluster_types t.cluster_resources_template_type raw.cluster_template)
        (new_templates_of t file_revision tier parameters raw.namespace_templates ns)
        (and_templates t of_roles cluster) tmpls
        (λ more.
          new_templates_of-AreOf raw.namespace_templates ns more
            (AreListed-sorted t sorted raw.namespace_templates))
        (λ more.
          and_templates-AreOf roles
            (cluster_types t.cluster_resources_template_type raw.cluster_template) of_roles cluster
            more
            (λ m.
              new_templates_of-AreOf raw.spacerole_templates roles m
                (AreListed-sorted t sorted raw.spacerole_templates))
            (new_cluster_template-AreOf raw.cluster_template))
        done
