-- ===== src/Tiers/Reuse.antt =====
-- The tiers that reuse another one, in the map of the tiers after the files have been loaded.
use toolchain_common.Base.{String, ◌≡◌, true, none, some, [], string_eq, is_some}
use toolchain_common.Base.Dict.{Dict, lookup}
use toolchain_common.Tiers.Files.{Templates, TierData, Tiers}
use toolchain_common.Tiers.FileLaws.{AreFresh}

-- A tier that reuses another one, with no namespaces, cluster resources or tier.yaml of its own.
abbrev pub Reuses : {B : Type 0} → Templates B → Type 0
Reuses raw =
    is_some raw.based_on_tier ≡ true
    → (raw.ns_template_tier ≡ none) × (raw.cluster_template ≡ none) × (raw.namespace_templates ≡ [])

module _ {B O P : Type 0} where
  -- What loading ensures of the map of the tiers: nothing is generated yet, and no tier that is based on
  -- another one has templates of its own but for its space roles.
  pub record IsLoaded (tiers : Tiers B O P) : Type 0 where
    pub fresh : AreFresh tiers
    pub reuses :
        (tier : String) (d : TierData B O P) → lookup tier tiers ≡ some d → Reuses d.raw_templates
