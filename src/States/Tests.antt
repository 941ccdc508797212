-- ===== src/States/Tests.antt =====
-- Runs of pkg/states/state_manager.go, and its theorems at concrete data.
use toolchain_common.Base.{String, ◌≡◌, refl, true, false, List, [], ◌∷◌, ne_of_==, string_eq}
use toolchain_common.States.{
  StateNames, AreDistinct, contains_state, remove, set_state, set_approved_manually,
  approved_manually, verification_required, deactivating, deactivated, rejected,
}
use toolchain_common.States.Sets.{
  NodupStates, contains-set_state, set_state-NodupStates, set_state_idempotent,
}
use toolchain_common.States.Setters.{
  flags, Call, approve, verify, begin_deactivation, deactivate, reject, run, run_all, IsConsistent,
  flags-run, run_all-IsConsistent,
}

abbrev names : StateNames
names = record {
  approved = "approved";
  verification_required = "verification-required";
  deactivating = "deactivating";
  deactivated = "deactivated";
  rejected = "rejected";
}

names-AreDistinct : AreDistinct names
unfolding string_eq
names-AreDistinct = record {
  approved-verification_required = ne_of_== "approved" "verification-required" refl;
  approved-deactivating = ne_of_== "approved" "deactivating" refl;
  approved-deactivated = ne_of_== "approved" "deactivated" refl;
  approved-rejected = ne_of_== "approved" "rejected" refl;
  verification_required-deactivating = ne_of_== "verification-required" "deactivating" refl;
  verification_required-deactivated = ne_of_== "verification-required" "deactivated" refl;
  verification_required-rejected = ne_of_== "verification-required" "rejected" refl;
  deactivating-deactivated = ne_of_== "deactivating" "deactivated" refl;
  deactivating-rejected = ne_of_== "deactivating" "rejected" refl;
  deactivated-rejected = ne_of_== "deactivated" "rejected" refl;
}

abbrev states : List String
states = "rejected" ∷ "verification-required" ∷ []

states-NodupStates : NodupStates states
unfolding contains_state string_eq
states-NodupStates = (refl, (refl, tt))

-- A rejected UserSignup that is approved by an admin keeps `rejected` beside `approved`.
approve_run : set_approved_manually names states true ≡ "rejected" ∷ "approved" ∷ []
unfolding set_approved_manually set_state contains_state remove string_eq
approve_run = refl

contains-set_state_example :
    contains_state (set_state states "verification-required" false) "rejected" ≡ true
unfolding string_eq contains_state
contains-set_state_example =
    contains-set_state states "verification-required" false states-NodupStates "rejected"

set_state-NodupStates_example : NodupStates (set_state states "approved" true)
set_state-NodupStates_example = set_state-NodupStates states "approved" true states-NodupStates

set_state_idempotent_example :
    set_state (set_state states "approved" true) "approved" true ≡ set_state states "approved" true
set_state_idempotent_example = set_state_idempotent states "approved" true states-NodupStates

flags-run_example : flags names (run names states (approve true)) ≡ record {
  approved = true;
  verification_required = false;
  deactivating = false;
  deactivated = false;
  rejected = true;
}
unfolding approved_manually verification_required deactivating deactivated rejected contains_state
    string_eq
flags-run_example = flags-run names names-AreDistinct (approve true) states states-NodupStates

abbrev calls : List Call
calls = approve true ∷ begin_deactivation true ∷ deactivate true ∷ verify true ∷ reject false ∷ []

states-IsConsistent : IsConsistent (flags names states)
unfolding approved_manually verification_required deactivating deactivated rejected contains_state
    string_eq
states-IsConsistent = record { approved_or_deactivated = refl; deactivating_or_deactivated = refl }

run_all-IsConsistent_example :
    NodupStates (run_all names states calls)
    × IsConsistent (flags names (run_all names states calls))
run_all-IsConsistent_example =
    run_all-IsConsistent names names-AreDistinct calls states states-NodupStates states-IsConsistent
