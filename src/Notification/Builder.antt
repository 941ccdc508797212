-- ===== src/Notification/Builder.antt =====
-- The builder of pkg/notification/notification_builder.go. An option is a value of a data type, and
-- `apply_option` is the function that the builder's method appends.
use toolchain_common.Base.{
  ℕ, String, ◌<>◌, not, Option, none, some, List, [], ◌∷◌, ◌++◌, ◌==◌, string_eq, nat_eq,
  if◌then◌else◌, Result, ok, err, Error, wrapped, ltb,
}
use toolchain_common.Base.Dict.{Dict, lookup, insert, insert_all}

-- `owner` is the owner that is set as the controller, if there is one.
pub record Notification (W : Type 0) : Type 0 where
  pub name : String
  pub generate_name : String
  pub namespace : String
  pub labels : Dict String String
  pub owner : Option W
  pub recipient : String
  pub template : String
  pub subject : String
  pub content : String
  pub context : Dict String String

-- The fields of a UserSignup that are read.
pub record UserSignup : Type 0 where
  pub sub : String
  pub given_name : String
  pub family_name : String
  pub company : String
  pub email : String
  pub compliant_username : String

pub data NotificationOption (W : Type 0) : Type 0 where
  with_name : String → NotificationOption W
  with_template : String → NotificationOption W
  with_subject_and_content : String → String → NotificationOption W
  with_notification_type : String → NotificationOption W
  with_controller_reference : W → NotificationOption W
  with_keys_and_values : Dict String String → NotificationOption W
  with_user_context : UserSignup → NotificationOption W
  with_user_tier_context : ℕ → NotificationOption W

-- The two label keys of the API module, controller-runtime's `SetControllerReference` and `Create`, which
-- gives the object as it is stored, `mail.ParseAddressList` for addresses `A`, `uuid.NewString` and
-- `strconv.Itoa`. `S` is the cluster.
pub record Platform (S W A : Type 0) : Type 0 where
  pub notification_type_label_key : String
  pub notification_user_name_label_key : String
  pub set_controller_reference : W → Notification W → Result (Notification W)
  pub create : Notification W → S → (Notification W × Option Error) × S
  pub parse_address_list : String → Result (List A)
  pub new_uuid : String
  pub itoa : ℕ → String

pub record Builder (W : Type 0) : Type 0 where
  pub namespace : String
  pub options : List (NotificationOption W)

module _ {W : Type 0} where
  unfoldable pub new_notification_builder : String → Builder W
  new_notification_builder namespace = record { namespace = namespace; options = [] }

  -- The eight methods: each appends its option.
  unfoldable pub add_option : NotificationOption W → Builder W → Builder W
  add_option option b = record b { options = b.options ++ (option ∷ []) }

module _ {S W A : Type 0} (c : Platform S W A) where
  -- The writes to the context, in the order of the code.
  unfoldable pub user_context : UserSignup → Dict String String → Dict String String
  user_context user context = insert "CompanyName" user.company (
      insert "LastName" user.family_name (
        insert "FirstName" user.given_name (
          insert "UserName" user.compliant_username
            (insert "UserID" user.sub (insert "Sub" user.sub context)))))

  unfoldable pub with_email : String → Dict String String → Dict String String
  with_email email context = if not (email == "") then insert "UserEmail" email context else context

  unfoldable pub apply_option : NotificationOption W → Notification W → Result (Notification W)
  unfolding user_context with_email
  apply_option (with_name name) n = ok (record n { name = name })
  apply_option (with_template template) n = ok (record n { template = template })
  apply_option (with_subject_and_content subject content) n =
      ok (record n { subject = subject; content = content })
  apply_option (with_notification_type type) n =
      ok (record n { labels = insert c.notification_type_label_key type n.labels })
  apply_option (with_controller_reference owner) n = c.set_controller_reference owner n
  apply_option (with_keys_and_values keys_and_values) n =
      ok (record n { context = insert_all keys_and_values n.context })
  apply_option (with_user_context user) n = ok (record n {
    context = with_email user.email (user_context user n.context);
    labels = insert c.notification_user_name_label_key user.compliant_username n.labels;
  })
  apply_option (with_user_tier_context days) n = ok (record n {
    context =
        insert "DeactivationTimeoutDays" (if ltb 0 days then c.itoa days else "(unlimited)")
          n.context;
  })

  abbrev pub and_apply :
      (Notification W → Result (Notification W)) → Result (Notification W) → Result (Notification W)
  and_apply rest (err e) = err e
  and_apply rest (ok n) = rest n

  unfoldable pub apply_options :
      List (NotificationOption W) → Notification W → Result (Notification W)
  unfolding apply_option
  apply_options [] n = ok n
  apply_options (option ∷ options) n =
      and_apply (λ n'. apply_options options n') (apply_option option n)

  abbrev pub typed_name : String → Option String → String
  typed_name username (some type) = username <> ("-" <> (type <> "-"))
  typed_name username none = username <> "-untyped"

  abbrev pub name_for : Option String → Option String → String
  name_for none type = c.new_uuid <> "-untyped"
  name_for (some username) type =
      if not (username == "") then typed_name username type else c.new_uuid <> "-untyped"

  unfoldable pub generate_name : Notification W → Notification W
  generate_name n =
      if n.name == ""
      then record n {
        generate_name =
            name_for (lookup "UserName" n.context) (lookup c.notification_type_label_key n.labels);
      }
      else n

  unfoldable pub new_notification : String → String → Notification W
  new_notification namespace recipient = record {
    name = "";
    generate_name = "";
    namespace = namespace;
    labels = [];
    owner = none;
    recipient = recipient;
    template = "";
    subject = "";
    content = "";
    context = [];
  }

  -- What `Create` returns: a notification or nil, and an error or nil.
  abbrev pub Created : Type 0
  Created = (Option (Notification W) × Option Error) × S

  abbrev pub sent : (Notification W × Option Error) × S → Created
  sent ((n, e), s) = ((some n, e), s)

  abbrev pub send : Result (Notification W) → S → Created
  send (err e) s = ((none, some e), s)
  send (ok n) s = sent (c.create n s)

  abbrev pub invalid : String → String
  invalid recipient = "The specified recipient [" <> (recipient <> "] is not a valid email address")

  abbrev pub and_generate : Result (Notification W) → Result (Notification W)
  and_generate (err e) = err e
  and_generate (ok n) = ok (generate_name n)

  -- `errors.Wrap` of a nil error is nil: an empty list of addresses gives neither a value nor an error.
  unfoldable pub create_for : Builder W → String → Result (List A) → S → Created
  unfolding apply_options generate_name new_notification
  create_for b recipient (err e) s = ((none, some (wrapped (invalid recipient) e)), s)
  create_for b recipient (ok []) s = ((none, none), s)
  create_for b recipient (ok (address ∷ addresses)) s =
      send (and_generate (apply_options b.options (new_notification b.namespace recipient))) s

  unfoldable pub create : Builder W → String → S → Created
  unfolding create_for
  create b recipient s = create_for b recipient (c.parse_address_list recipient) s
