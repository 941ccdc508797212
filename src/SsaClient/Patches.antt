-- ===== src/SsaClient/Patches.antt =====
-- What pkg/client/ssa_client.go sends: a patch of a prepared object, unless it is skipped.
use toolchain_common.Base.{
  String, ◌≡◌, refl, ◌∙◌, ap, Bool, true, false, Option, none, some, List, [], string_eq,
  if◌then◌else◌, Result, ok, err, Error, arith, ◌⊎◌, inl, inr, is_some, Bool-cases,
}
use toolchain_common.Base.Dict.{lookup, NodupKeys, lookup-insert_all}
use toolchain_common.SsaClient.Client.{
  Object, GroupVersionKind, Platform, SsaApplyClient, SsaApplyObjectConfiguration,
  SsaApplyObjectOption, new_ssa_apply_object_configuration, compose, with_labels, configure,
  with_gvk, ensure_gvk, prepare_for_ssa, migrate_object, migrates, is_skipped, patch_migrated,
  apply_prepared, apply_configured, apply_object,
}

-- `obj` is the given object, configured and prepared; it has its kind, no managed fields, and the
-- labels.
pub record IsPrepared {S W U : Type 0} (c : Platform S W U)
    (config : SsaApplyObjectConfiguration W U) (given obj : Object U) : Type 0 where
  pub configured : Object U
  pub is_configured : configure c config given ≡ ok configured
  pub is_prepared : prepare_for_ssa c configured ≡ ok obj
  pub kind : is_some obj.gvk ≡ true
  pub fields : obj.managed_fields ≡ []
  pub labelled : (k v : String) → lookup k config.new_labels ≡ some v → lookup k obj.labels ≡ some v

module _ {S W U : Type 0} (c : Platform S W U) (client : SsaApplyClient)
    (config : SsaApplyObjectConfiguration W U) (given : Object U) (start : S) where
  -- The migration in front of the patch.
  abbrev pub migrated_from : Object U → Option Error × S
  migrated_from obj =
      if migrates c client config.migrate_ssa
      then migrate_object c client obj start
      else (none, start)

  -- A result without an error is that of skipping the prepared object behind a migration without an
  -- error, or that of its patch.
  abbrev pub IsSent : Option Error × S → Type 0
  IsSent r =
      (obj : Object U) × (s : S) × IsPrepared c config given obj
      × (migrated_from obj ≡ (none, s))
      × (((is_skipped c config.skip_if obj ≡ true) × (r ≡ (none, s)))
          ⊎ ((is_skipped c config.skip_if obj ≡ false) × (r ≡ c.patch client.field_owner obj s)))

  compose_lem :
      (obj : Object U) (r : Option Error × S) → (compose c obj r).0 ≡ none → compose c obj r ≡ r
  compose_lem obj (none, s) done = refl
  compose_lem obj (some e, s) done = ground arith

  patch_migrated-IsSent :
      (obj : Object U) (migrated : Option Error × S)
      → IsPrepared c config given obj
      → migrated_from obj ≡ migrated
      → (patch_migrated c client config obj migrated).0 ≡ none
      → IsSent (patch_migrated c client config obj migrated)
  unfolding patch_migrated
  patch_migrated-IsSent obj (some e, s) prepared from done = ground arith
  patch_migrated-IsSent obj (none, s) prepared from done = (
    obj,
    s,
    prepared,
    from,
    elim (Bool-cases (is_skipped c config.skip_if obj)) [
      | inl skipped ↦ inl (skipped, rw skipped refl)
      | inr sent ↦ inr (sent, ground (arith, compose_lem obj (c.patch client.field_owner obj s)))
    ],
  )

  with_gvk-IsPrepared :
      (obj : Object U) (r : Result GroupVersionKind) (prepared : Object U)
      → with_gvk c obj r ≡ ok prepared
      → (is_some prepared.gvk ≡ true)
        × (prepared.managed_fields ≡ obj.managed_fields)
        × (prepared.labels ≡ obj.labels)
  unfolding with_gvk
  with_gvk-IsPrepared obj (err e) prepared same = ground arith
  with_gvk-IsPrepared obj (ok gvk) prepared same = ground arith

  prepare_for_ssa_lem :
      (obj prepared : Object U)
      → prepare_for_ssa c obj ≡ ok prepared
      → (is_some prepared.gvk ≡ true)
        × (prepared.managed_fields ≡ [])
        × (prepared.labels ≡ obj.labels)
  unfolding prepare_for_ssa ensure_gvk
  prepare_for_ssa_lem obj prepared same = ground (
    arith,
    with_gvk-IsPrepared (record obj { managed_fields = [] })
        (c.gvk_for_object (record obj { managed_fields = [] })) prepared,
  )

  with_labels_lem :
      (r : Result (Object U)) (configured : Object U) (k v : String)
      → NodupKeys config.new_labels
      → with_labels c config.new_labels r ≡ ok configured
      → lookup k config.new_labels ≡ some v
      → lookup k configured.labels ≡ some v
  unfolding with_labels
  with_labels_lem (err e) configured k v map same ensured = ground arith
  with_labels_lem (ok obj) configured k v map same ensured =
      ground (arith, lookup-insert_all k config.new_labels obj.labels map)

  configure_lem :
      (obj configured : Object U) (k v : String)
      → NodupKeys config.new_labels
      → configure c config obj ≡ ok configured
      → lookup k config.new_labels ≡ some v
      → lookup k configured.labels ≡ some v
  unfolding configure
  configure_lem obj configured k v map same ensured = labelled config.owner same
    where
      labelled :
          (owner : Option W)
          → (elim owner [
            | none ↦ with_labels c config.new_labels (ok obj)
            | some w ↦ with_labels c config.new_labels (c.set_controller_reference w obj)
          ])
            ≡ ok configured
          → lookup k configured.labels ≡ some v
      labelled none same = with_labels_lem (ok obj) configured k v map same ensured
      labelled (some w) same =
          with_labels_lem (c.set_controller_reference w obj) configured k v map same ensured

  -- The same for either branch.
  choose-IsSent :
      (b : Bool) (r r' : Option Error × S)
      → (b ≡ true → r.0 ≡ none → IsSent r)
      → (b ≡ false → r'.0 ≡ none → IsSent r')
      → (if b then r else r').0 ≡ none
      → IsSent (if b then r else r')
  choose-IsSent true r r' sent sent' done = sent refl done
  choose-IsSent false r r' sent sent' done = sent' refl done

  apply_prepared-IsSent :
      (configured : Object U) (prepared : Result (Object U))
      → ((obj : Object U) → prepared ≡ ok obj → IsPrepared c config given obj)
      → (apply_prepared c client config configured prepared start).0 ≡ none
      → IsSent (apply_prepared c client config configured prepared start)
  unfolding apply_prepared
  apply_prepared-IsSent configured (err e) prepares done = ground arith
  apply_prepared-IsSent configured (ok obj) prepares done =
      choose-IsSent (migrates c client config.migrate_ssa)
        (patch_migrated c client config obj (migrate_object c client obj start))
        (patch_migrated c client config obj (none, start))
        (λ b.
          patch_migrated-IsSent obj (migrate_object c client obj start) (prepares obj refl)
            (rw b refl))
        (λ b. patch_migrated-IsSent obj (none, start) (prepares obj refl) (rw b refl)) done

  apply_configured-IsSent :
      (configured : Result (Object U))
      → configure c config given ≡ configured
      → NodupKeys config.new_labels
      → (apply_configured c client config given configured start).0 ≡ none
      → IsSent (apply_configured c client config given configured start)
  unfolding apply_configured
  apply_configured-IsSent (err e) is map done = ground arith
  apply_configured-IsSent (ok o) is map done =
      apply_prepared-IsSent o (prepare_for_ssa c o)
        (λ prepared same.
          let (kind, fields, kept) = prepare_for_ssa_lem o prepared same in
          record {
            configured = o;
            is_configured = is;
            is_prepared = same;
            kind = kind;
            fields = fields;
            labelled = λ k v ensured. ap (lookup k) kept ∙ configure_lem given o k v map is ensured;
          })
        done

-- When an object is applied without an error, then it has been configured and prepared without one: what
-- is sent has its kind, no managed fields, and every label that the options ensure (a map with each key
-- once). The migration, if there is one, came first and gave no error. The result is that of a patch of
-- this object by the client's field owner, or, if the test of the options holds of it, the cluster
-- without a patch.
pub apply_object-IsSent :
    {S W U : Type 0} (c : Platform S W U) (client : SsaApplyClient)
    (options : List (SsaApplyObjectOption W U)) (obj : Object U) (s : S)
    → NodupKeys (new_ssa_apply_object_configuration options).new_labels
    → (apply_object c client options obj s).0 ≡ none
    → IsSent c client
        (new_ssa_apply_object_configuration options)
        obj
        s
        (apply_object c client options obj s)
unfolding apply_object
apply_object-IsSent c client options obj s map done =
    let config = new_ssa_apply_object_configuration options in
    apply_configured-IsSent c client config obj s (configure c config obj) refl map done
