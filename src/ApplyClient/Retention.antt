-- ===== src/ApplyClient/Retention.antt =====
-- What pkg/client/client.go keeps of an existing object as it updates it: the cluster IP of a Service.
use mathlib.Core.Path.{subst}
use toolchain_common.Base.{
  ℕ, String, ◌≡◌, ◌≢◌, refl, ap, sym, Bool, true, false, Option, none, some, List, string_eq,
  nat_eq, Result, ok, err, Error, wrapped, arith, ◌⊎◌, inl, inr, Bool-cases,
}
use toolchain_common.ApplyClient.Objects.{
  Object, Body, Client, ApplyObjectOption, ApplyObjectConfiguration, new_apply_object_configuration,
  cluster_ip, set_cluster_ip, retain_found, retain_cluster_ip, with_body, get_new_configuration,
}
use toolchain_common.ApplyClient.Apply.{
  Applied, save, is_applied, to_update, updated, send_update, apply_found, apply_configured,
  apply_object,
}
use toolchain_common.ApplyClient.Stored.{SamePlace}

abbrev pub is_service : {U : Type 0} → Body U → Bool
is_service (Body.service _ _) = true
is_service _ = false

-- Whether a cluster IP can be set in the object.
abbrev pub holds_cluster_ip : {U : Type 0} → Body U → Bool
holds_cluster_ip (Body.service _ _) = true
holds_cluster_ip (Body.unstructured _) = true
holds_cluster_ip (Body.other _) = false

-- What is documented of the unstructured package: a field that has been set is read.
abbrev pub ReadsNested : {S W U : Type 0} → Client S W U → Type 0
ReadsNested {S} {W} {U} c =
    (u u' : U) (ip : String)
    → c.set_nested_cluster_ip u ip ≡ ok u'
    → c.nested_cluster_ip u' ≡ ok (some ip)

module _ {S W U : Type 0} (c : Client S W U) (reads : ReadsNested c) (ip : String)
    (content : ip ≢ "") where
  -- The object with a body of that cluster IP, or the error of setting it.
  abbrev IsRetained : Object U → Body U → Result (Object U) → Type 0
  IsRetained obj body r =
      ((b : Body U) × (r ≡ ok (record obj { body = b })) × (cluster_ip c b ≡ ok (some ip)))
      ⊎ ((e : Error) × (r ≡ err e) × (is_service body ≡ false))

  set_cluster_ip-IsRetained :
      (obj : Object U) (body : Body U)
      → holds_cluster_ip body ≡ true
      → IsRetained obj body (with_body c obj (set_cluster_ip c body ip))
  unfolding set_cluster_ip cluster_ip
  set_cluster_ip-IsRetained obj (Body.service x u) holds =
      inl (Body.service ip u, refl, ground arith)
  set_cluster_ip-IsRetained obj (Body.unstructured u) holds =
      by_result (c.set_nested_cluster_ip u ip) refl
    where
      by_result :
          (r : Result U)
          → c.set_nested_cluster_ip u ip ≡ r
          → IsRetained obj
              (Body.unstructured u)
              (with_body c obj (elim r [ ok u' ↦ ok (Body.unstructured u') | err e ↦ err e ]))
      by_result (ok u') is = inl (Body.unstructured u', refl, reads u u' ip is)
      by_result (err e) is = inr (e, refl, refl)
  set_cluster_ip-IsRetained obj (Body.other u) holds = ground arith

  -- The cluster gets an object in the place of `obj`, with the cluster IP and the version that the
  -- existing object has.
  abbrev pub IsUpdated : Object U → Object U → S → Applied S → Type 0
  IsUpdated obj existing s r =
      (o : Object U) × (r.cluster ≡ (c.update o s).1)
      × (cluster_ip c o.body ≡ ok (some ip))
      × (o.resource_version ≡ existing.resource_version)
      × SamePlace o obj

  -- Or nothing is sent, with an error, which a typed Service cannot give.
  abbrev pub Keeps : Object U → Object U → S → Applied S → Type 0
  Keeps obj existing s r =
      IsUpdated obj existing s r
      ⊎ ((r.error ≢ none) × (r.cluster ≡ s) × (is_service obj.body ≡ false))

  updated_cluster :
      (generation : ℕ) (r : Result (Object U) × S) → (updated c generation r).cluster ≡ r.1
  unfolding updated
  updated_cluster generation (err e, s) = refl
  updated_cluster generation (ok o, s) = refl

  send_update-Keeps :
      (obj existing : Object U) (s : S) (r : Result (Object U))
      → IsRetained (record obj { resource_version = existing.resource_version }) obj.body r
      → Keeps obj existing s (send_update c existing.generation r s)
  unfolding send_update
  send_update-Keeps obj existing s r (inl (b, is, kept)) =
      let o = record obj { resource_version = existing.resource_version; body = b } in
      subst (λ x. Keeps obj existing s (send_update c existing.generation x s)) (sym is)
        (inl
          (o, updated_cluster existing.generation (c.update o s), kept, refl, (refl, refl, refl)))
  send_update-Keeps obj existing s r (inr (e, is, untyped)) =
      subst (λ x. Keeps obj existing s (send_update c existing.generation x s)) (sym is)
        (inr (λ none_found. ground arith, refl, untyped))

  module _ (existing : Object U) (found : cluster_ip c existing.body ≡ ok (some ip)) where
    to_update_lem :
        (obj : Object U)
        → c.equal_fold obj.kind "ServiceAccount" ≡ false
        → to_update c obj existing ≡ record obj { resource_version = existing.resource_version }
    unfolding to_update
    to_update_lem obj other = rw other refl

    retain_cluster_ip-eq :
        (obj : Object U)
        → retain_cluster_ip c obj existing ≡ with_body c obj (set_cluster_ip c obj.body ip)
    unfolding retain_cluster_ip retain_found
    retain_cluster_ip-eq obj = rw found refl

    apply_found-Keeps :
        (config : ApplyObjectConfiguration W) (obj : Object U) (text : String) (s : S)
        → config.force_update ≡ true
        → c.equal_fold obj.kind "ServiceAccount" ≡ false
        → holds_cluster_ip obj.body ≡ true
        → Keeps obj existing s (apply_found c config obj text (ok existing) s)
    unfolding apply_found is_applied
    apply_found-Keeps config obj text s forced other holds =
        let o : Object U = record obj { resource_version = existing.resource_version } in
        let same : apply_found c config obj text (ok existing) s
            ≡ send_update c existing.generation (with_body c o (set_cluster_ip c obj.body ip)) s =
          rw (forced, to_update_lem obj other)
            (ap (λ r. send_update c existing.generation r s) (retain_cluster_ip-eq o)) in
        subst (Keeps obj existing s) (sym same) (
          send_update-Keeps obj existing s (with_body c o (set_cluster_ip c obj.body ip))
            (set_cluster_ip-IsRetained o obj.body holds))

    apply_configured-Keeps :
        (config : ApplyObjectConfiguration W) (obj : Object U) (s : S)
        → c.get s obj.kind obj.namespace obj.name ≡ ok existing
        → config.force_update ≡ true
        → c.equal_fold obj.kind "ServiceAccount" ≡ false
        → holds_cluster_ip obj.body ≡ true
        → Keeps obj existing s (apply_configured c config obj s)
    unfolding apply_configured save
    apply_configured-Keeps config obj s there forced other holds =
        elim (Bool-cases config.save_configuration) [
          | inl saving ↦
              rw (saving, there)
                (apply_found-Keeps config (save c obj) (get_new_configuration c obj) s forced other
                  holds)
          | inr plain ↦ rw (plain, there) (apply_found-Keeps config obj "" s forced other holds)
        ]

    -- When an update is forced over an existing object that has a cluster IP, by an object that is not a
    -- ServiceAccount and is a typed Service or unstructured, then the cluster gets an object in its
    -- place with that cluster IP, whatever its own was, and with the existing resource version; or
    -- setting the field of an unstructured object fails, an error is returned, and nothing is sent. A
    -- field that has been set in an unstructured object is read.
    pub apply_object-Keeps :
        (options : List (ApplyObjectOption W)) (obj : Object U) (s : S)
        → c.get s obj.kind obj.namespace obj.name ≡ ok existing
        → (new_apply_object_configuration options).force_update ≡ true
        → c.equal_fold obj.kind "ServiceAccount" ≡ false
        → holds_cluster_ip obj.body ≡ true
        → Keeps obj existing s (apply_object c options obj s)
    unfolding apply_object
    apply_object-Keeps options obj s there forced other holds =
        kept _ (apply_configured c (new_apply_object_configuration options) obj s)
          (apply_configured c (new_apply_object_configuration options) obj s).error refl
          (apply_configured-Keeps (new_apply_object_configuration options) obj s there forced other
            holds)
      where
        wrapping : String → Option Error → Applied S → Applied S
        wrapping message e r = elim e [
          | none ↦ r
          | some e ↦ record r { error = some (wrapped message e) }
        ]

        kept :
            (message : String) (r : Applied S) (e : Option Error)
            → r.error ≡ e
            → Keeps obj existing s r
            → Keeps obj existing s (wrapping message e r)
        kept message r none is keeps = keeps
        kept message r (some e) is (inl sent) = inl sent
        kept message r (some e) is (inr (failed, same, untyped)) =
            inr (λ none_found. ground arith, same, untyped)
