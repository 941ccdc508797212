-- ===== src/Notification/CreateLaws.antt =====
-- What `Create` of pkg/notification/notification_builder.go sends and returns.
use toolchain_common.Base.{
  ◌<◌, String, ◌<>◌, ◌≡◌, ◌≢◌, refl, ◌∙◌, ap, Bool, true, false, not, Option, none, some, List, [],
  ◌∷◌, ◌==◌, string_eq, if◌then◌else◌, Result, ok, err, Error, wrapped, arith, text_length,
  text_length-append, inl, inr, ◌⊎◌, ne_of_==,
}
use toolchain_common.Base.Dict.{lookup}
use toolchain_common.Notification.Builder.{
  Notification, NotificationOption, with_name, with_template, with_subject_and_content,
  with_notification_type, with_controller_reference, with_keys_and_values, with_user_context,
  with_user_tier_context, Platform, Builder, apply_option, and_apply, apply_options, typed_name,
  name_for, generate_name, new_notification, Created, send, and_generate, create_for, create,
}

text_nonempty : (u v : String) → 0 < text_length v → u <> v ≢ ""
text_nonempty u v h e = omega (arith, text_length-append u v, ap text_length e, h)

shorter : (u v : String) → 0 < text_length u → 0 < text_length (u <> v)
shorter u v h = omega (arith, text_length-append u v, h)

module _ {S W A : Type 0} (c : Platform S W A) where
  -- What is documented of controller-runtime: only the owner references are changed.
  pub record SetsOwner : Type 0 where
    pub recipient :
        (w : W) (n n' : Notification W)
        → c.set_controller_reference w n ≡ ok n'
        → n'.recipient ≡ n.recipient
    pub namespace :
        (w : W) (n n' : Notification W)
        → c.set_controller_reference w n ≡ ok n'
        → n'.namespace ≡ n.namespace

  -- A notification to the recipient, in the namespace, with a name or a prefix for one.
  pub record IsSendable (namespace recipient : String) (n : Notification W) : Type 0 where
    pub recipient_kept : n.recipient ≡ recipient
    pub namespace_kept : n.namespace ≡ namespace
    pub named : n.name ≡ "" → n.generate_name ≢ ""

  typed_name_nonempty : (username : String) (type : Option String) → typed_name c username type ≢ ""
  typed_name_nonempty username none = text_nonempty username "-untyped" (omega arith)
  typed_name_nonempty username (some type) =
      text_nonempty username ("-" <> (type <> "-")) (shorter "-" (type <> "-") (omega arith))

  name_for_nonempty : (username type : Option String) → name_for c username type ≢ ""
  name_for_nonempty none type = text_nonempty c.new_uuid "-untyped" (omega arith)
  name_for_nonempty (some username) type = choose (username == "")
    where
      choose :
          (b : Bool) → (if not b then typed_name c username type else c.new_uuid <> "-untyped") ≢ ""
      choose true = text_nonempty c.new_uuid "-untyped" (omega arith)
      choose false = typed_name_nonempty username type

  module _ (sets : SetsOwner) where
    apply_option-kept :
        (option : NotificationOption W) (n n' : Notification W)
        → apply_option c option n ≡ ok n'
        → (n'.recipient ≡ n.recipient) × (n'.namespace ≡ n.namespace)
    unfolding apply_option
    apply_option-kept (with_name x) n n' done = (ground arith, ground arith)
    apply_option-kept (with_template x) n n' done = (ground arith, ground arith)
    apply_option-kept (with_subject_and_content x y) n n' done = (ground arith, ground arith)
    apply_option-kept (with_notification_type x) n n' done = (ground arith, ground arith)
    apply_option-kept (with_controller_reference w) n n' done =
        (sets.recipient w n n' done, sets.namespace w n n' done)
    apply_option-kept (with_keys_and_values d) n n' done = (ground arith, ground arith)
    apply_option-kept (with_user_context u) n n' done = (ground arith, ground arith)
    apply_option-kept (with_user_tier_context days) n n' done = (ground arith, ground arith)

    apply_options-kept :
        (options : List (NotificationOption W)) (n n' : Notification W)
        → apply_options c options n ≡ ok n'
        → (n'.recipient ≡ n.recipient) × (n'.namespace ≡ n.namespace)
    unfolding apply_options
    apply_options-kept [] n n' done = (ground arith, ground arith)
    apply_options-kept (option ∷ options) n n' done =
        by_first (λ m rest. apply_options-kept options m n' rest) (apply_option c option n) refl
          done
      where
        by_first :
            ((m : Notification W)
              → apply_options c options m ≡ ok n'
              → (n'.recipient ≡ m.recipient) × (n'.namespace ≡ m.namespace))
            → (r : Result (Notification W)) → apply_option c option n ≡ r
            → and_apply c (λ m. apply_options c options m) r ≡ ok n'
            → (n'.recipient ≡ n.recipient) × (n'.namespace ≡ n.namespace)
        by_first ih (err e) is done = ground arith
        by_first ih (ok m) is done =
            let (recipient, namespace) = ih m done in
            let (recipient', namespace') = apply_option-kept option n m is in
            (recipient ∙ recipient', namespace ∙ namespace')

    generate_name-IsSendable :
        (namespace recipient : String) (n : Notification W)
        → n.recipient ≡ recipient
        → n.namespace ≡ namespace
        → IsSendable namespace recipient (generate_name c n)
    unfolding generate_name
    generate_name-IsSendable namespace recipient n to at = by_test (n.name == "") refl
      where
        prefix : String
        prefix =
            name_for c (lookup "UserName" n.context) (lookup c.notification_type_label_key n.labels)

        by_test :
            (b : Bool)
            → (n.name == "") ≡ b
            → IsSendable namespace recipient (if b then record n { generate_name = prefix } else n)
        by_test true unnamed = record {
          recipient_kept = to;
          namespace_kept = at;
          named = λ _.
              name_for_nonempty (lookup "UserName" n.context)
                (lookup c.notification_type_label_key n.labels);
        }
        by_test false is = record {
          recipient_kept = to;
          namespace_kept = at;
          named = λ unnamed. absurd (ne_of_== n.name "" is unnamed);
        }

    -- What the options make of a notification, one after the other, up to the first that fails.
    abbrev pub AreApplied :
        List (NotificationOption W) → Notification W → Result (Notification W) → Type 0
    AreApplied [] n r = r ≡ ok n
    AreApplied (option ∷ options) n r =
        ((e : Error) × (apply_option c option n ≡ err e) × (r ≡ err e))
        ⊎ ((m : Notification W) × (apply_option c option n ≡ ok m) × AreApplied options m r)

    apply_options-AreApplied :
        (options : List (NotificationOption W)) (n : Notification W)
        → AreApplied options n (apply_options c options n)
    unfolding apply_options
    apply_options-AreApplied [] n = refl
    apply_options-AreApplied (option ∷ options) n =
        by_first (λ m. apply_options-AreApplied options m) (apply_option c option n) refl
      where
        by_first :
            ((m : Notification W) → AreApplied options m (apply_options c options m))
            → (r : Result (Notification W)) → apply_option c option n ≡ r
            → AreApplied (option ∷ options) n (and_apply c (λ m. apply_options c options m) r)
        by_first ih (err e) is = inl (e, is, refl)
        by_first ih (ok m) is = inr (m, is, ih m)

    -- The notification before its options: for the recipient, in the namespace, and nothing else.
    abbrev pub plain : String → String → Notification W
    plain namespace recipient = record {
      name = "";
      generate_name = "";
      namespace = namespace;
      labels = [];
      owner = none;
      recipient = recipient;
      template = "";
      subject = "";
      content = "";
      context = [];
    }

    -- The cluster gets a notification that differs from the one the options make in the prefix for its
    -- name at most, and what it makes of it is returned.
    abbrev pub SendsOne : Builder W → String → S → Created c → Type 0
    SendsOne b recipient s r =
        (built : Notification W) × (n : Notification W) × AreApplied b.options
          (plain b.namespace recipient) (ok built)
        × (n ≡ record built { generate_name = n.generate_name })
        × IsSendable b.namespace recipient n
        × (r ≡ (((some (c.create n s).0.0), (c.create n s).0.1), (c.create n s).1))

    -- An option fails, and its error is returned.
    abbrev pub FailsAtOption : Builder W → String → S → Created c → Type 0
    FailsAtOption b recipient s r =
        (e : Error) × AreApplied b.options (plain b.namespace recipient) (err e)
        × (r ≡ ((none, some e), s))

    -- What a call does, by the addresses of the recipient.
    abbrev pub Sends : Builder W → String → Result (List A) → S → Created c → Type 0
    Sends b recipient (err e) s r = r ≡ (
      (
        none,
        some (
            wrapped ("The specified recipient [" <> (recipient <> "] is not a valid email address"))
              e),
      ),
      s,
    )
    Sends b recipient (ok []) s r = r ≡ ((none, none), s)
    Sends b recipient (ok (_ ∷ _)) s r = SendsOne b recipient s r ⊎ FailsAtOption b recipient s r

    generate_name-kept :
        (n : Notification W)
        → generate_name c n ≡ record n { generate_name = (generate_name c n).generate_name }
    unfolding generate_name
    generate_name-kept n = by_test (n.name == "")
      where
        prefix : String
        prefix =
            name_for c (lookup "UserName" n.context) (lookup c.notification_type_label_key n.labels)

        given : Bool → Notification W
        given b = if b then record n { generate_name = prefix } else n

        by_test : (b : Bool) → given b ≡ record n { generate_name = (given b).generate_name }
        by_test true = refl
        by_test false = refl

    send-Sends :
        (b : Builder W) (recipient : String) (built : Result (Notification W)) (s : S)
        → apply_options c b.options (plain b.namespace recipient) ≡ built
        → AreApplied b.options (plain b.namespace recipient) built
        → SendsOne b recipient s (send c (and_generate c built) s)
          ⊎ FailsAtOption b recipient s (send c (and_generate c built) s)
    send-Sends b recipient (err e) s is applied = inr (e, applied, refl)
    send-Sends b recipient (ok n) s is applied =
        let (to, at) = apply_options-kept b.options (plain b.namespace recipient) n is in
        inl (
          n,
          generate_name c n,
          applied,
          generate_name-kept n,
          generate_name-IsSendable b.namespace recipient n to at,
          refl,
        )

    -- If setting an owner keeps the recipient and the namespace: a call for a recipient that is no address
    -- returns an error, one for an empty list of addresses neither a notification nor an error, and the
    -- cluster stays as it is. Any other call either applies all options in their order, sends what
    -- they make of a plain notification and returns what the cluster makes of it with its error, or
    -- returns the error of the first option that fails and leaves the cluster. What is sent is for the
    -- given recipient, in the builder's namespace, and has a name, or a prefix from which the cluster
    -- makes one; only this prefix is not from the options.
    pub create-Sends :
        (b : Builder W) (recipient : String) (s : S)
        → Sends b recipient (c.parse_address_list recipient) s (create c b recipient s)
    unfolding create create_for new_notification
    create-Sends b recipient s = by_addresses (c.parse_address_list recipient)
      where
        by_addresses : (r : Result (List A)) → Sends b recipient r s (create_for c b recipient r s)
        by_addresses (err e) = refl
        by_addresses (ok []) = refl
        by_addresses (ok (a ∷ more)) =
            send-Sends b recipient (apply_options c b.options (plain b.namespace recipient)) s refl
              (apply_options-AreApplied b.options (plain b.namespace recipient))
