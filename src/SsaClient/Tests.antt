-- ===== src/SsaClient/Tests.antt =====
-- Runs of pkg/client/ssa_client.go, and its theorems at concrete data: a cluster that holds one object.
use mathlib.Core.Path.{subst}
use toolchain_common.Base.{
  String, ◌≡◌, refl, true, false, not, ◌&&◌, Option, none, some, List, [], ◌∷◌, ◌==◌, string_eq,
  if◌then◌else◌, Result, ok, err, not_found, same_char, Bool, inl, inr, All, eq_of_==, ne_of_==,
}
use toolchain_common.Base.Dict.{lookup, insert, insert_all}
use toolchain_common.SsaClient.Client.{
  ManagedField, GroupVersionKind, Object, Platform, SsaApplyClient, new_ssa_apply_client,
  SsaApplyObjectOption, new_ssa_apply_object_configuration, configure, prepare_for_ssa, migrates,
  is_ssa_migration_needed, old_field_owner, apply_object, apply_all,
}
use toolchain_common.SsaClient.Migration.{IsApplied, IsClean, IsSsaServer, apply_object-migrated}
use toolchain_common.SsaClient.Patches.{IsSent, apply_object-IsSent}

abbrev pub Cluster : Type 0
Cluster = Option (Object String)

abbrev pub service : GroupVersionKind
service = record { group = ""; version = "v1"; kind = "Service" }

-- Without the entries of the owner for the object itself that are not applied.
abbrev pub without : List ManagedField → String → List ManagedField
without [] owner = []
without (mf ∷ fields) owner =
    if mf.manager == owner && (not (mf.operation == "Apply") && mf.subresource == "")
    then without fields owner
    else mf ∷ without fields owner

abbrev pub fields_of : Cluster → List ManagedField
fields_of none = []
fields_of (some x) = x.managed_fields

abbrev pub get : Cluster → Object String → Result (Object String)
get none o = err (not_found o.name)
get (some x) o = ok x

abbrev pub platform : Platform Cluster String String
platform = record {
  get = get;
  update = λ o s. (none, some o);
  patch = λ owner o s. (none, some (record o { managed_fields = fields_of s }));
  set_controller_reference = λ owner o. ok (record o { labels = ("owner", owner) ∷ o.labels });
  gvk_for_object = λ o. ok service;
  upgrade_managed_fields =
      λ o old new. ok (record o { managed_fields = without o.managed_fields old });
  default_user_agent = "kubesaw/v1";
  apply_operation = "Apply";
  kind_text = λ o. "Service";
}

without_lem :
    (fields : List ManagedField) (owner : String)
    → All (IsApplied platform owner) (without fields owner)
without_lem [] owner = tt
without_lem (mf ∷ fields) owner =
    by_tests (without_lem fields owner) (mf.manager == owner) (mf.operation == "Apply")
      (mf.subresource == "") refl refl refl
  where
    by_tests :
        All (IsApplied platform owner) (without fields owner)
        → (a b d : Bool) → (mf.manager == owner) ≡ a
        → (mf.operation == "Apply") ≡ b
        → (mf.subresource == "") ≡ d
        → All
            (IsApplied platform owner)
            (if a && (not b && d) then without fields owner else mf ∷ without fields owner)
    by_tests rest false b d other of_b of_d = (inl (inl (ne_of_== mf.manager owner other)), rest)
    by_tests rest true true d same applied of_d =
        (inl (inr (eq_of_== mf.operation "Apply" applied)), rest)
    by_tests rest true false true same updated main = rest
    by_tests rest true false false same updated sub = (inr (ne_of_== mf.subresource "" sub), rest)

patched :
    (o : Object String) (owner : String) (s : Cluster)
    → IsClean platform owner (get s o)
    → All (IsApplied platform owner) (fields_of s)
patched o owner none clean = tt
patched o owner (some x) clean = clean

platform-IsSsaServer : IsSsaServer platform
platform-IsSsaServer = record {
  upgrades =
      λ o o' old new same. subst (IsClean platform old) same (without_lem o.managed_fields old);
  updates = λ o stored upgraded old new owner s got is done clean. clean;
  patches = λ o field_owner owner s done clean. patched o owner s clean;
}

abbrev pub web : Object String
web = record {
  gvk = none;
  namespace = "ns";
  name = "web";
  labels = [];
  managed_fields =
      record { manager = "kubesaw"; operation = "Update"; subresource = "" }
      ∷ record { manager = "kubesaw"; operation = "Update"; subresource = "status" }
      ∷ [];
  body = "ports";
}

abbrev client : SsaApplyClient
client = new_ssa_apply_client "host-operator"

abbrev options : List (SsaApplyObjectOption String String)
options = SsaApplyObjectOption.ensure_labels (("team", "a") ∷ []) ∷ []

abbrev configured : Object String
configured = record web { labels = ("team", "a") ∷ [] }

abbrev sent : Object String
sent = record configured { gvk = some service; managed_fields = [] }

apply_object-migrated_example :
    IsClean platform
      (old_field_owner platform client)
      (get (apply_object platform client options web (some web)).1 sent)
unfolding migrates new_ssa_apply_object_configuration configure insert_all insert prepare_for_ssa
    apply_object apply_all old_field_owner lookup string_eq same_char
apply_object-migrated_example =
    apply_object-migrated platform platform-IsSsaServer client options web configured sent
      (some web) refl refl refl refl

apply_object-IsSent_example :
    IsSent platform client
      (new_ssa_apply_object_configuration options)
      web
      none
      (apply_object platform client options web none)
unfolding migrates new_ssa_apply_object_configuration configure insert_all insert prepare_for_ssa
    apply_object apply_all old_field_owner lookup string_eq same_char
apply_object-IsSent_example = apply_object-IsSent platform client options web none (refl, tt) refl

-- The entry of the status stays, so the object is taken for one that has to be migrated at every call.
still_needed :
    is_ssa_migration_needed platform
      (fields_of (apply_object platform client options web (some web)).1)
      "kubesaw"
    ≡ true
unfolding migrates new_ssa_apply_object_configuration configure insert_all insert prepare_for_ssa
    apply_object apply_all old_field_owner lookup string_eq same_char is_ssa_migration_needed
still_needed = refl

old_owner : old_field_owner platform client ≡ "kubesaw"
unfolding migrates new_ssa_apply_object_configuration configure insert_all insert prepare_for_ssa
    apply_object apply_all old_field_owner lookup string_eq same_char
old_owner = refl

skipped :
    apply_object platform client (SsaApplyObjectOption.skip_if (λ o. true) ∷ []) web none
    ≡ (none, none)
unfolding migrates new_ssa_apply_object_configuration configure insert_all insert prepare_for_ssa
    apply_object apply_all old_field_owner lookup string_eq same_char
skipped = refl

applied :
    (elim (apply_all platform client options (web ∷ []) (some web)).1 [
      | none ↦ none
      | some x ↦ lookup "team" x.labels
    ])
    ≡ some "a"
unfolding migrates new_ssa_apply_object_configuration configure insert_all insert prepare_for_ssa
    apply_object apply_all old_field_owner lookup string_eq same_char
applied = refl
