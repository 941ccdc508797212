-- ===== src/Notification/Tests.antt =====
-- A run of the builder of pkg/notification/notification_builder.go, and its theorem at it.
use toolchain_common.Base.{
  String, ◌≡◌, refl, ap, sym, map, true, false, ◌==◌, string_eq, none, some, List, [], ◌∷◌, ok, err,
}
use toolchain_common.Base.Dict.{lookup, insert}
use toolchain_common.Notification.Builder.{
  Notification, with_notification_type, with_user_context, UserSignup, Platform, Builder,
  new_notification_builder, add_option, create,
}
use toolchain_common.Notification.CreateLaws.{SetsOwner, Sends, create-Sends}

-- The cluster is the list of its notifications, and every text but the empty one is an address.
abbrev platform : Platform (List (Notification String)) String String
platform = record {
  notification_type_label_key = "type";
  notification_user_name_label_key = "username";
  set_controller_reference = λ owner n. ok (record n { owner = some owner });
  create = λ n s. ((n, none), n ∷ s);
  parse_address_list = λ text. elim (text == "") [ true ↦ ok [] | false ↦ ok (text ∷ []) ];
  new_uuid = "uuid";
  itoa = λ n. "30";
}

platform-SetsOwner : SetsOwner platform
platform-SetsOwner = record {
  recipient =
      λ w n n' same. ap (λ r. elim r [ ok x ↦ x.recipient | err _ ↦ n'.recipient ]) (sym same);
  namespace =
      λ w n n' same. ap (λ r. elim r [ ok x ↦ x.namespace | err _ ↦ n'.namespace ]) (sym same);
}

abbrev user : UserSignup
user = record {
  sub = "1";
  given_name = "Ann";
  family_name = "Lee";
  company = "Acme";
  email = "";
  compliant_username = "ann";
}

abbrev builder : Builder String
builder = record {
  namespace = "host";
  options = with_user_context user ∷ with_notification_type "banned" ∷ [];
}

built :
    add_option
      (with_notification_type "banned")
      (add_option (with_user_context user) (new_notification_builder "host"))
    ≡ builder
unfolding add_option new_notification_builder
built = refl

create-Sends_example :
    Sends platform platform-SetsOwner builder "ann@acme"
      (ok ("ann@acme" ∷ []))
      []
      (create platform builder "ann@acme" [])
unfolding string_eq
create-Sends_example = create-Sends platform platform-SetsOwner builder "ann@acme" []

generated :
    map (λ n. n.generate_name) (create platform builder "ann@acme" []).1 ≡ "ann-banned-" ∷ []
unfolding create string_eq lookup insert
generated = refl

-- Without an address there is neither a notification nor an error.
silent : create platform builder "" [] ≡ ((none, none), [])
unfolding create string_eq
silent = refl
