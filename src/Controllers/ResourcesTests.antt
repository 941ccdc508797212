-- ===== src/Controllers/ResourcesTests.antt =====
-- A run of the reconciler of controllers/toolchainclusterresources, and its theorem at it.
use toolchain_common.Base.{String, ◌≡◌, refl, true, none, some, [], ◌∷◌, string_eq, is_some}
use toolchain_common.Base.Dict.{lookup, insert, insert_all}
use toolchain_common.SsaClient.Client.{Object, new_ssa_apply_client}
use toolchain_common.SsaClient.Tests.{platform, web, service}
use toolchain_common.Controllers.Resources.{Reconciler, map_to_owner_by_label, reconcile}
use toolchain_common.Controllers.ResourcesLaws.{AllSent, reconcile-AllSent}

abbrev reconciler : Reconciler String String
reconciler = record {
  templates = some "templates";
  field_manager = "host";
  template_objects = web ∷ [];
}

abbrev applied : Object String
applied = record web {
  gvk = some service;
  labels = ("provider", "toolchaincluster-resources-controller") ∷ [];
  managed_fields = [];
}

reconciled : reconcile platform "provider" reconciler none ≡ (none, some applied)
unfolding reconcile insert_all insert
reconciled = refl

reconcile-AllSent_example :
    (is_some reconciler.templates ≡ true)
    × AllSent platform (new_ssa_apply_client "host") "provider" (web ∷ []) none (some applied)
reconcile-AllSent_example =
    reconcile-AllSent platform "provider" reconciler none (some applied) reconciled

owned :
    map_to_owner_by_label "ns" "provider" applied
    ≡ record { namespace = "ns"; name = "toolchaincluster-resources-controller" } ∷ []
unfolding map_to_owner_by_label lookup string_eq
owned = refl
