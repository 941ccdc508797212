-- ===== src/ApplyClient/Tests.antt =====
-- Runs of pkg/client/client.go, and its theorems at concrete data: a cluster that holds one object.
use toolchain_common.Base.{
  ℕ, suc, String, ◌<>◌, ◌≡◌, ◌≢◌, refl, Bool, true, false, ◌&&◌, Option, none, some, List, [], ◌∷◌,
  ◌==◌, string_eq, nat_eq, ne_of_==, if◌then◌else◌, Result, ok, err, Error, failed, not_found,
  arith, ◌+◌, ap, sym,
}
use toolchain_common.Base.Dict.{Dict, lookup}
use toolchain_common.ApplyClient.Objects.{
  Object, Body, Client, ApplyObjectOption, cluster_ip, get_new_configuration,
  new_apply_object_configuration,
}
use toolchain_common.ApplyClient.Apply.{apply_object, apply}
use toolchain_common.ApplyClient.Stored.{IsServer}
use toolchain_common.ApplyClient.Idempotence.{apply_object_idempotent}
use toolchain_common.ApplyClient.Retention.{ReadsNested, Keeps, apply_object-Keeps}

abbrev Cluster : Type 0
Cluster = Option (Object String)

abbrev get : Cluster → String → String → String → Result (Object String)
get none kind namespace name = err (not_found name)
get (some o) kind namespace name =
    if o.kind == kind && (o.namespace == namespace && o.name == name)
    then ok o
    else err (not_found name)

abbrev create : Object String → Cluster → Option Error × Cluster
create o s = (none, some o)

abbrev update : Object String → Cluster → Result (Object String) × Cluster
update o s = (
  ok (record o { generation = suc o.generation }),
  some (record o { generation = suc o.generation }),
)

abbrev client : Client Cluster String String
client = record {
  get = get;
  create = create;
  update = update;
  set_controller_reference = λ owner o. ok (record o { labels = ("owner", owner) ∷ o.labels });
  equal_fold = λ s t. s == t;
  marshal = λ o. some ("json of " <> o.name);
  format = λ o. "%v";
  nested_cluster_ip = λ u. ok (some u);
  set_nested_cluster_ip = λ u ip. ok ip;
}

get_stored : (o : Object String) → get (some o) o.kind o.namespace o.name ≡ ok o
get_stored o = ground arith

get_place :
    (s : Cluster) (kind namespace name : String) (o : Object String)
    → get s kind namespace name ≡ ok o
    → (o.kind ≡ kind) × (o.namespace ≡ namespace) × (o.name ≡ name)
get_place none kind namespace name o got = ground arith
get_place (some x) kind namespace name o got = ground arith

client-IsServer : IsServer client
client-IsServer = record {
  create_stores = λ o s done. (o, get_stored o, refl);
  update_stores = λ o o' s s' sent. (
    record o { generation = suc o.generation },
    ground (arith, get_stored (record o { generation = suc o.generation })),
    refl,
  );
  get_place = λ s kind namespace name o got. get_place s kind namespace name o got;
  owner_keeps = λ w o o' kept. ground arith;
}

abbrev web : Object String
web = record {
  kind = "Service";
  version = "v1";
  namespace = "ns";
  name = "web";
  labels = [];
  annotations = [];
  resource_version = "";
  generation = 1;
  body = Body.service "" "ports";
}

abbrev assigned : Object String
assigned = record web { body = Body.service "10.0.0.7" "ports"; resource_version = "17" }

apply_object_idempotent_example :
    apply_object client [] web
      (apply_object client (ApplyObjectOption.force_update true ∷ []) web (some assigned)).cluster
    ≡ record {
      created_or_updated = false;
      error = none;
      cluster =
          (apply_object client
            (ApplyObjectOption.force_update true ∷ [])
            web
            (some assigned)).cluster;
    }
unfolding new_apply_object_configuration string_eq get_new_configuration apply_object
apply_object_idempotent_example =
    apply_object_idempotent client client-IsServer (ApplyObjectOption.force_update true ∷ []) [] web
      (some assigned) refl refl refl (ne_of_== (get_new_configuration client web) "" refl) tt refl

-- The content of an unstructured object of the tests is its cluster IP.
reads : ReadsNested client
reads u u' ip set = ap (λ r. elim r [ ok x ↦ ok (some x) | err _ ↦ ok (some u') ]) (sym set)

content : ◌≢◌ {A = String} "10.0.0.7" ""
unfolding string_eq
content = ne_of_== "10.0.0.7" "" refl

apply_object-Keeps_example :
    Keeps client reads "10.0.0.7" content web assigned
      (some assigned)
      (apply_object client (ApplyObjectOption.force_update true ∷ []) web (some assigned))
unfolding new_apply_object_configuration string_eq cluster_ip
apply_object-Keeps_example =
    apply_object-Keeps client reads "10.0.0.7" content assigned refl
      (ApplyObjectOption.force_update true ∷ []) web (some assigned) refl refl refl refl

created : (apply_object client [] web none).created_or_updated ≡ true
unfolding apply_object
created = refl

-- One of the objects is new.
applied_all : (apply client (web ∷ web ∷ []) (("team", "a") ∷ []) none).created_or_updated ≡ true
unfolding apply string_eq
applied_all = refl

labelled :
    (elim (apply client (web ∷ []) (("team", "a") ∷ []) none).cluster [
      | none ↦ none
      | some o ↦ lookup "team" o.labels
    ])
    ≡ some "a"
unfolding apply lookup toolchain_common.Base.Dict.insert_all toolchain_common.Base.Dict.insert
    string_eq
labelled = refl
