-- ===== src/ApplyClient/Stored.antt =====
-- What pkg/client/client.go sends is stored by the API server.
use toolchain_common.Base.{
  ℕ, String, ◌≡◌, refl, Bool, true, Option, none, some, string_eq, nat_eq, Result, ok, err, arith,
}
use toolchain_common.Base.Dict.{Dict, lookup, NodupKeys, lookup-insert_all}
use toolchain_common.ApplyClient.Objects.{
  Object, Client, last_applied_configuration_annotation_key, merge_labels, merge_annotations,
  with_body, retain_cluster_ip, retain_found, set_cluster_ip, cluster_ip, Body,
}
use toolchain_common.ApplyClient.Apply.{
  create_owned, create_obj, is_applied, to_update, updated, send_update,
}

-- An object that has the place of `o` is in the cluster, with the annotations given.
abbrev pub IsStored : {S W U : Type 0} → Client S W U → S → Object U → Dict String String → Type 0
IsStored {S} {W} {U} c s o annotations =
    (x : Object U) × (c.get s o.kind o.namespace o.name ≡ ok x) × (x.annotations ≡ annotations)

abbrev pub SamePlace : {U : Type 0} → Object U → Object U → Type 0
SamePlace o o' = (o.kind ≡ o'.kind) × (o.namespace ≡ o'.namespace) × (o.name ≡ o'.name)

-- What is documented of the API server: it keeps the annotations of the object it accepts, and gets an
-- object by its place; an owner reference changes neither.
pub record IsServer {S W U : Type 0} (c : Client S W U) : Type 0 where
  pub create_stores :
      (o : Object U) (s : S) → (c.create o s).0 ≡ none → IsStored c (c.create o s).1 o o.annotations
  pub update_stores :
      (o o' : Object U) (s s' : S) → c.update o s ≡ (ok o', s') → IsStored c s' o o.annotations
  pub get_place :
      (s : S) (kind namespace name : String) (o : Object U)
      → c.get s kind namespace name ≡ ok o
      → (o.kind ≡ kind) × (o.namespace ≡ namespace) × (o.name ≡ name)
  pub owner_keeps :
      (w : W) (o o' : Object U)
      → c.set_controller_reference w o ≡ ok o'
      → SamePlace o' o × (o'.annotations ≡ o.annotations)

module _ {S W U : Type 0} (c : Client S W U) (server : IsServer c) where
  moved :
      (o' o : Object U) (s : S)
      → SamePlace o' o
      → o'.annotations ≡ o.annotations
      → IsStored c s o' o'.annotations
      → IsStored c s o o.annotations
  moved o' o s (kind, namespace, name) same (x, got, stored) = (x, cc, cc)

  create_owned_stores :
      (o : Object U) (r : Result (Object U)) (s : S)
      → ((o' : Object U) → r ≡ ok o' → SamePlace o' o × (o'.annotations ≡ o.annotations))
      → (create_owned c r s).0 ≡ none
      → IsStored c (create_owned c r s).1 o o.annotations
  unfolding create_owned
  create_owned_stores o (err e) s keeps done = ground arith
  create_owned_stores o (ok o') s keeps done =
      moved o' o (c.create o' s).1 (keeps o' refl).0 (keeps o' refl).1
        (server.create_stores o' s done)

  pub create_obj_stores :
      (o : Object U) (owner : Option W) (s : S)
      → (create_obj c o owner s).0 ≡ none
      → IsStored c (create_obj c o owner s).1 o o.annotations
  unfolding create_obj
  create_obj_stores o none s done = server.create_stores o s done
  create_obj_stores o (some w) s done =
      create_owned_stores o (c.set_controller_reference w o) s
        (λ o' kept. server.owner_keeps w o o' kept) done

  updated_stores :
      (o : Object U) (generation : ℕ) (s : S) (r : Result (Object U) × S)
      → c.update o s ≡ r
      → (updated c generation r).error ≡ none
      → IsStored c (updated c generation r).cluster o o.annotations
  unfolding updated
  updated_stores o generation s (err e, s') sent done = ground arith
  updated_stores o generation s (ok o', s') sent done = server.update_stores o o' s s' sent

  send_update_stores :
      (o : Object U) (generation : ℕ) (r : Result (Object U)) (s : S)
      → ((o' : Object U) → r ≡ ok o' → SamePlace o' o × (o'.annotations ≡ o.annotations))
      → (send_update c generation r s).error ≡ none
      → IsStored c (send_update c generation r s).cluster o o.annotations
  unfolding send_update
  send_update_stores o generation (err e) s keeps done = ground arith
  send_update_stores o generation (ok o') s keeps done =
      moved o' o (updated c generation (c.update o' s)).cluster (keeps o' refl).0 (keeps o' refl).1
        (updated_stores o' generation s (c.update o' s) refl done)

  with_body_keeps :
      (o : Object U) (r : Result (Body U)) (o' : Object U)
      → with_body c o r ≡ ok o'
      → SamePlace o' o × (o'.annotations ≡ o.annotations)
  with_body_keeps o (err e) o' is = ground arith
  with_body_keeps o (ok body) o' is = ground arith

  retain_found_keeps :
      (o : Object U) (ip : Result (Option String)) (o' : Object U)
      → retain_found c o ip ≡ ok o'
      → SamePlace o' o × (o'.annotations ≡ o.annotations)
  unfolding retain_found
  retain_found_keeps o (err e) o' is = ground arith
  retain_found_keeps o (ok none) o' is = ground arith
  retain_found_keeps o (ok (some ip)) o' is = with_body_keeps o (set_cluster_ip c o.body ip) o' is

  -- The object in a place holds the configuration that was applied last.
  abbrev pub HasConfiguration : S → Object U → String → Type 0
  HasConfiguration s o configuration =
      (x : Object U) × (c.get s o.kind o.namespace o.name ≡ ok x)
      × (lookup last_applied_configuration_annotation_key x.annotations ≡ some configuration)

  pub of_stored :
      (s : S) (o' o : Object U) (configuration : String)
      → SamePlace o' o
      → lookup last_applied_configuration_annotation_key o'.annotations ≡ some configuration
      → IsStored c s o' o'.annotations
      → HasConfiguration s o configuration
  of_stored s o' o configuration (kind, namespace, name) saved (x, got, stored) = (x, cc, cc)

  to_update_lem :
      (o existing : Object U) (configuration : String)
      → SamePlace existing o
      → NodupKeys o.annotations
      → lookup last_applied_configuration_annotation_key o.annotations ≡ some configuration
      → SamePlace (to_update c o existing) o
        × (lookup last_applied_configuration_annotation_key (to_update c o existing).annotations
            ≡ some configuration)
  unfolding to_update merge_labels merge_annotations
  to_update_lem o existing configuration place map saved = ground (
    arith,
    lookup-insert_all last_applied_configuration_annotation_key o.annotations existing.annotations
        map,
  )

  pub is_applied_lem :
      (force : Bool) (configuration : String) (existing : Object U)
      → is_applied c force configuration existing ≡ true
      → lookup last_applied_configuration_annotation_key existing.annotations ≡ some configuration
  unfolding is_applied
  is_applied_lem force configuration existing same = ground arith

  -- What was sent for an object that exists is stored in its place.
  pub send_found_stores :
      (o existing : Object U) (configuration : String) (s : S)
      → SamePlace existing o
      → NodupKeys o.annotations
      → lookup last_applied_configuration_annotation_key o.annotations ≡ some configuration
      → (send_update c existing.generation
          (retain_cluster_ip c (to_update c o existing) existing)
          s).error
        ≡ none
      → HasConfiguration
          (send_update c existing.generation
            (retain_cluster_ip c (to_update c o existing) existing)
            s).cluster
          o
          configuration
  unfolding retain_cluster_ip
  send_found_stores o existing configuration s place map saved done =
      of_stored
        (send_update c existing.generation (retain_cluster_ip c (to_update c o existing) existing)
          s).cluster
        (to_update c o existing) o configuration
        (to_update_lem o existing configuration place map saved).0
        (to_update_lem o existing configuration place map saved).1
        (send_update_stores (to_update c o existing) existing.generation
          (retain_cluster_ip c (to_update c o existing) existing) s
          (retain_found_keeps (to_update c o existing) (cluster_ip c existing.body)) done)
