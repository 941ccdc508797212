-- ===== src/SsaClient/Migration.antt =====
-- What the migration of pkg/client/ssa_client.go leaves: of the old owner's fields that are not applied only
-- those of subresources.
use mathlib.Core.Path.{subst}
use toolchain_common.Base.{
  String, ◌≡◌, refl, ◌∙◌, ap, sym, Bool, true, false, Option, none, some, List, string_eq,
  if◌then◌else◌, Result, ok, err, Error, wrapped, arith, is_not_found, ◌≢◌, ◌⊎◌, inl, inr, All, [],
  ◌∷◌, ◌==◌, Bool-cases, eq_of_==, ne_of_==,
}
use toolchain_common.SsaClient.Client.{
  ManagedField, Object, Platform, SsaApplyClient, SsaApplyObjectConfiguration, SsaApplyObjectOption,
  new_ssa_apply_object_configuration, is_ssa_migration_needed, update_upgraded, migrate_to_ssa,
  old_field_owner, migrate_found, migrate_object, compose, is_skipped, patch_migrated, wrap_error,
  apply_object, apply_prepared, apply_configured, configure, prepare_for_ssa, migrates,
}

-- The entry is not one of the owner that was not applied, or it is for a subresource.
abbrev pub IsApplied : {S W U : Type 0} → Platform S W U → String → ManagedField → Type 0
IsApplied c owner mf =
    ((mf.manager ≢ owner) ⊎ (mf.operation ≡ c.apply_operation)) ⊎ (mf.subresource ≢ "")

-- No entry of the object itself is left that the owner has not applied.
abbrev pub IsClean : {S W U : Type 0} → Platform S W U → String → Result (Object U) → Type 0
IsClean c owner (err e) = Unit {0}
IsClean c owner (ok x) = All (IsApplied c owner) x.managed_fields

-- What is documented of client-go and of the API server: upgraded fields have no entry of the old owner for
-- the object itself that is not applied (those for a subresource are kept), an update by an upgraded
-- object stores the fields that it is given in the object's place, and a patch adds no entry that is not
-- applied.
pub record IsSsaServer {S W U : Type 0} (c : Platform S W U) : Type 0 where
  pub upgrades :
      (o o' : Object U) (old new : String)
      → c.upgrade_managed_fields o old new ≡ ok o'
      → IsClean c old (ok o')
  pub updates :
      (o stored upgraded : Object U) (old new owner : String) (s : S)
      → c.get s o ≡ ok stored
      → c.upgrade_managed_fields stored old new ≡ ok upgraded
      → (c.update upgraded s).0 ≡ none
      → IsClean c owner (ok upgraded)
      → IsClean c owner (c.get (c.update upgraded s).1 o)
  pub patches :
      (o : Object U) (field_owner owner : String) (s : S)
      → (c.patch field_owner o s).0 ≡ none
      → IsClean c owner (c.get s o)
      → IsClean c owner (c.get (c.patch field_owner o s).1 o)

-- Fields that need no migration have no such entry at all.
is_ssa_migration_needed-IsApplied :
    {S W U : Type 0} (c : Platform S W U) (fields : List ManagedField) (owner : String)
    → is_ssa_migration_needed c fields owner ≡ false
    → All (IsApplied c owner) fields
unfolding is_ssa_migration_needed
is_ssa_migration_needed-IsApplied c [] owner clean = tt
is_ssa_migration_needed-IsApplied c (mf ∷ fields) owner clean =
    by_manager (λ later. is_ssa_migration_needed-IsApplied c fields owner later)
      (Bool-cases (mf.manager == owner)) (Bool-cases (mf.operation == c.apply_operation))
  where
    by_manager :
        (is_ssa_migration_needed c fields owner ≡ false → All (IsApplied c owner) fields)
        → ((mf.manager == owner) ≡ true) ⊎ ((mf.manager == owner) ≡ false)
        → ((mf.operation == c.apply_operation) ≡ true)
          ⊎ ((mf.operation == c.apply_operation) ≡ false)
        → IsApplied c owner mf × All (IsApplied c owner) fields
    by_manager rest (inr other) of_operation =
        (inl (inl (ne_of_== mf.manager owner other)), rest (ground arith))
    by_manager rest (inl same) (inl applied) =
        (inl (inr (eq_of_== mf.operation c.apply_operation applied)), rest (ground arith))
    by_manager rest (inl same) (inr updated) = ground arith

module _ {S W U : Type 0} (c : Platform S W U) (server : IsSsaServer c)
    (client : SsaApplyClient) where
  update_upgraded_lem :
      (o stored : Object U) (r : Result (Object U)) (s : S)
      → c.get s o ≡ ok stored
      → c.upgrade_managed_fields stored (old_field_owner c client) client.field_owner ≡ r
      → (update_upgraded c r s).0 ≡ none
      → IsClean c (old_field_owner c client) (c.get (update_upgraded c r s).1 o)
  unfolding update_upgraded
  update_upgraded_lem o stored (err e) s got is done = ground arith
  update_upgraded_lem o stored (ok o') s got is done =
      server.updates o stored o' (old_field_owner c client) client.field_owner
        (old_field_owner c client) s got is done
        (server.upgrades stored o' (old_field_owner c client) client.field_owner is)

  -- What a migration without an error leaves.
  abbrev Leaves : Object U → Option Error × S → Type 0
  Leaves o r = r.0 ≡ none → IsClean c (old_field_owner c client) (c.get r.1 o)

  wrap_error_lem :
      (o : Object U) (message : String) (r : Option Error × S)
      → Leaves o r
      → Leaves o (wrap_error c message r)
  wrap_error_lem o message (none, s) leaves = leaves
  wrap_error_lem o message (some e, s) leaves = λ done. ground arith

  choose-Leaves :
      (o : Object U) (b : Bool) (r r' : Option Error × S)
      → (b ≡ true → Leaves o r)
      → (b ≡ false → Leaves o r')
      → Leaves o (if b then r else r')
  choose-Leaves o true r r' leaves leaves' = leaves refl
  choose-Leaves o false r r' leaves leaves' = leaves' refl

  migrate_found-Leaves :
      (o : Object U) (found : Result (Object U)) (s : S)
      → c.get s o ≡ found
      → Leaves o (migrate_found c client found s)
  unfolding migrate_found migrate_to_ssa
  migrate_found-Leaves o (err e) s got =
      choose-Leaves o (is_not_found e) (none, s)
        (
          some (
              wrapped "failed to get the object from the cluster while migrating managed fields" e),
          s,
        )
        (λ missing done. subst (IsClean c (old_field_owner c client)) (sym got) tt)
        (λ failing done. ground arith)
  migrate_found-Leaves o (ok stored) s got =
      choose-Leaves o (is_ssa_migration_needed c stored.managed_fields (old_field_owner c client))
        (wrap_error c "failed to migrate the managed fields" (
          update_upgraded c
            (c.upgrade_managed_fields stored (old_field_owner c client) client.field_owner) s))
        (none, s)
        (λ migrating.
          wrap_error_lem o "failed to migrate the managed fields"
            (update_upgraded c
              (c.upgrade_managed_fields stored (old_field_owner c client) client.field_owner) s)
            (update_upgraded_lem o stored
              (c.upgrade_managed_fields stored (old_field_owner c client) client.field_owner) s got
              refl))
        (λ clean done. subst (IsClean c (old_field_owner c client)) (sym got) (
          is_ssa_migration_needed-IsApplied c stored.managed_fields (old_field_owner c client)
            clean))

  compose-Leaves :
      (o : Object U) (s : S)
      → IsClean c (old_field_owner c client) (c.get s o)
      → (r : Option Error × S) → c.patch client.field_owner o s ≡ r
      → Leaves o (compose c o r)
  compose-Leaves o s clean (some e, s') sent = λ done. ground arith
  compose-Leaves o s clean (none, s') sent = λ done.
      subst (λ (r : Option Error × S). IsClean c (old_field_owner c client) (c.get r.1 o)) sent
        (server.patches o client.field_owner (old_field_owner c client) s (ap (λ r. r.0) sent)
          clean)

  patch_migrated-Leaves :
      (config : SsaApplyObjectConfiguration W U) (o : Object U) (migrated : Option Error × S)
      → Leaves o migrated
      → Leaves o (patch_migrated c client config o migrated)
  unfolding patch_migrated
  patch_migrated-Leaves config o (some e, s) leaves = λ done. ground arith
  patch_migrated-Leaves config o (none, s) leaves =
      choose-Leaves o (is_skipped c config.skip_if o) (none, s)
        (compose c o (c.patch client.field_owner o s)) (λ skipped done. leaves refl)
        (λ sent. compose-Leaves o s (leaves refl) (c.patch client.field_owner o s) refl)

  apply_prepared-Leaves :
      (config : SsaApplyObjectConfiguration W U) (configured o : Object U) (s : S)
      → migrates c client config.migrate_ssa ≡ true
      → Leaves o (apply_prepared c client config configured (ok o) s)
  unfolding apply_prepared migrate_object
  apply_prepared-Leaves config configured o s migrating =
      choose-Leaves o (migrates c client config.migrate_ssa)
        (patch_migrated c client config o (migrate_object c client o s))
        (patch_migrated c client config o (none, s))
        (λ m.
          patch_migrated-Leaves config o (migrate_object c client o s)
            (migrate_found-Leaves o (c.get s o) s refl))
        (λ m. ground arith)

apply_object-eq-apply_prepared :
    {S W U : Type 0} (c : Platform S W U) (client : SsaApplyClient)
    (options : List (SsaApplyObjectOption W U)) (obj configured o : Object U) (s : S)
    → configure c (new_ssa_apply_object_configuration options) obj ≡ ok configured
    → prepare_for_ssa c configured ≡ ok o
    → apply_object c client options obj s
      ≡ apply_prepared c client (new_ssa_apply_object_configuration options) configured (ok o) s
unfolding apply_object apply_configured
apply_object-eq-apply_prepared c client options obj configured o s is prepared =
    ap (λ r. apply_configured c client (new_ssa_apply_object_configuration options) obj r s) is
    ∙ ap (λ r. apply_prepared c client (new_ssa_apply_object_configuration options) configured r s)
        prepared

-- On an API server that keeps managed fields as documented, when an object has been applied without an
-- error by a client that migrates, then the object in its place has no entry of the old owner left that
-- was not applied, but for those of its subresources, such as its status. The object is the one that is
-- sent: the configured one, prepared.
pub apply_object-migrated :
    {S W U : Type 0} (c : Platform S W U)
    → IsSsaServer c
    → (client : SsaApplyClient) (options : List (SsaApplyObjectOption W U))
      (obj configured o : Object U) (s : S)
    → migrates c client (new_ssa_apply_object_configuration options).migrate_ssa ≡ true
    → configure c (new_ssa_apply_object_configuration options) obj ≡ ok configured
    → prepare_for_ssa c configured ≡ ok o
    → (apply_object c client options obj s).0 ≡ none
    → IsClean c (old_field_owner c client) (c.get (apply_object c client options obj s).1 o)
apply_object-migrated {S} c server client options obj configured o s migrating is prepared done =
    let config = new_ssa_apply_object_configuration options in
    let same = apply_object-eq-apply_prepared c client options obj configured o s is prepared in
    subst (λ (r : Option Error × S). IsClean c (old_field_owner c client) (c.get r.1 o)) (sym same)
      (apply_prepared-Leaves c server client config configured o s migrating
        (sym (ap (λ r. r.0) same) ∙ done))
