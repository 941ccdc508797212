-- ===== src/States.antt =====
-- pkg/states/state_manager.go: the approval states of a UserSignup. The entries of
-- `UserSignup.Spec.States` are strings, and the five states are constants of the API module, taken as
-- a parameter. A setter changes nothing of the UserSignup but that slice.
pub mod Sets
pub mod Setters
pub mod Tests
use toolchain_common.Base.{
  String, ◌≢◌, Bool, true, false, not, ◌&&◌, ◌||◌, List, [], ◌∷◌, ◌++◌, ◌==◌, string_eq,
  if◌then◌else◌, contains,
}

pub record StateNames : Type 0 where
  pub approved : String
  pub verification_required : String
  pub deactivating : String
  pub deactivated : String
  pub rejected : String

-- The code relies on the states being different strings.
pub record AreDistinct (names : StateNames) : Type 0 where
  pub approved-verification_required : names.approved ≢ names.verification_required
  pub approved-deactivating : names.approved ≢ names.deactivating
  pub approved-deactivated : names.approved ≢ names.deactivated
  pub approved-rejected : names.approved ≢ names.rejected
  pub verification_required-deactivating : names.verification_required ≢ names.deactivating
  pub verification_required-deactivated : names.verification_required ≢ names.deactivated
  pub verification_required-rejected : names.verification_required ≢ names.rejected
  pub deactivating-deactivated : names.deactivating ≢ names.deactivated
  pub deactivating-rejected : names.deactivating ≢ names.rejected
  pub deactivated-rejected : names.deactivated ≢ names.rejected

unfoldable pub contains_state : List String → String → Bool
contains_state [] state = false
contains_state (a ∷ s) state = if a == state then true else contains_state s state

-- The first entry that is the state goes.
unfoldable pub remove : List String → String → List String
remove [] state = []
remove (v ∷ s) state = let rest = remove s state in if v == state then s else v ∷ rest

unfoldable pub set_state : List String → String → Bool → List String
set_state states state val =
    let states' =
      if val && not (contains_state states state) then states ++ (state ∷ []) else states in
    if not val && contains_state states' state then remove states' state else states'

module _ (names : StateNames) where
  unfoldable pub approved_manually : List String → Bool
  approved_manually states = contains_state states names.approved

  unfoldable pub set_approved_manually : List String → Bool → List String
  set_approved_manually states approved =
      let states' = set_state states names.approved approved in
      if approved
      then set_state
          (set_state (set_state states' names.verification_required false) names.deactivating false)
          names.deactivated false
      else states'

  unfoldable pub verification_required : List String → Bool
  verification_required states = contains_state states names.verification_required

  unfoldable pub set_verification_required : List String → Bool → List String
  set_verification_required states val = set_state states names.verification_required val

  unfoldable pub deactivating : List String → Bool
  deactivating states = contains_state states names.deactivating

  unfoldable pub set_deactivating : List String → Bool → List String
  set_deactivating states val =
      let states' = set_state states names.deactivating val in
      if val then set_state states' names.deactivated false else states'

  unfoldable pub deactivated : List String → Bool
  deactivated states = contains_state states names.deactivated

  unfoldable pub set_deactivated : List String → Bool → List String
  set_deactivated states val =
      let states' = set_state states names.deactivated val in
      if val
      then set_state (set_state states' names.approved false) names.deactivating false
      else states'

  unfoldable pub rejected : List String → Bool
  rejected states = contains_state states names.rejected

  unfoldable pub set_rejected : List String → Bool → List String
  set_rejected states val = set_state states names.rejected val
