-- ===== src/Configuration/Get.antt =====
-- pkg/configuration/get.go. A nil pointer is `none`. `time.ParseDuration` is a parameter that gives
-- `none` for its error.
use toolchain_common.Base.{ℕ, String, Bool, Option, none, some, [], ◌∷◌, string_eq}
use toolchain_common.Base.Dict.{Dict, insert, insert_all}

-- The five functions have one body.
abbrev pub get_value : {A : Type 0} → Option A → A → A
get_value none default = default
get_value (some value) default = value

abbrev pub get_bool : Option Bool → Bool → Bool
get_bool value default = get_value value default

-- `GetInt`, `GetUint` and `GetInt32`, of which only natural numbers are modelled.
abbrev pub get_int : Option ℕ → ℕ → ℕ
get_int value default = get_value value default

abbrev pub get_string : Option String → String → String
get_string value default = get_value value default

unfoldable pub get_duration : {D : Type 0} → (String → Option D) → Option String → D → D
get_duration parse_duration value default =
    get_value (parse_duration (get_string value "invalid value")) default

abbrev pub Secrets : Type 0
Secrets = Dict String (Dict String String)

-- The two loops of `CopyOf`, into maps that are made empty.
unfoldable pub copy_loop : Secrets → Secrets → Secrets
copy_loop [] target = target
copy_loop ((key, value) ∷ original) target =
    copy_loop original (insert key (insert_all value []) target)

unfoldable pub copy_of : Secrets → Secrets
unfolding copy_loop
copy_of original = copy_loop original []
