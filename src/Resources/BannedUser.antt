-- ===== src/Resources/BannedUser.antt =====
-- pkg/banneduser/banneduser.go. The label keys and the API server are parameters.
use toolchain_common.Base.{
  String, ◌<>◌, Option, none, some, List, [], ◌∷◌, string_eq, Result, ok, err, failed,
}
use toolchain_common.Base.Dict.{Dict, lookup, insert}

pub record UserSignup : Type 0 where
  pub namespace : String
  pub name : String
  pub labels : Dict String String
  pub email : String

pub record BannedUser : Type 0 where
  pub namespace : String
  pub name : String
  pub labels : Dict String String
  pub email : String
  pub reason : String

-- The label keys of the API module.
pub record LabelKeys : Type 0 where
  pub user_signup_user_email_hash : String
  pub user_signup_user_phone_hash : String
  pub email_hash : String
  pub banned_by : String
  pub phone_number_hash : String

module _ (keys : LabelKeys) where
  unfoldable pub with_phone_hash : Option String → BannedUser → BannedUser
  with_phone_hash none user = user
  with_phone_hash (some hash) user = record user {
    labels = insert keys.phone_number_hash hash user.labels;
  }

  abbrev pub banned_with : UserSignup → String → String → Option String → Result BannedUser
  banned_with signup banned_by ban_reason none = err (
      failed (
        "the UserSignup "
        <> (signup.name
            <> (" doesn't have the label '" <> (keys.user_signup_user_email_hash <> "' set")))))
  banned_with signup banned_by ban_reason (some hash) = ok (
      with_phone_hash (lookup keys.user_signup_user_phone_hash signup.labels) (record {
        namespace = signup.namespace;
        name = "banneduser-" <> hash;
        labels = insert keys.banned_by banned_by (insert keys.email_hash hash []);
        email = signup.email;
        reason = ban_reason;
      }))

  unfoldable pub new_banned_user : UserSignup → String → String → Result BannedUser
  unfolding with_phone_hash
  new_banned_user signup banned_by ban_reason =
      banned_with signup banned_by ban_reason
        (lookup keys.user_signup_user_email_hash signup.labels)

  -- `list` lists the BannedUsers with a label of a namespace; none for nil.
  abbrev pub first_of : Result (List BannedUser) → Result (Option BannedUser)
  first_of (err e) = err e
  first_of (ok []) = ok none
  first_of (ok (user ∷ users)) = ok (some user)

  unfoldable pub get_banned_user :
      {S : Type 0}
      → (S → String → String → String → Result (List BannedUser))
      → String
      → S
      → String
      → Result (Option BannedUser)
  get_banned_user list user_email_hash s host_namespace =
      first_of (list s keys.email_hash user_email_hash host_namespace)
