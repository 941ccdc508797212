-- ===== src/Condition/Tests.antt =====
-- Runs of pkg/condition/condition.go, and its theorems at concrete data.
use toolchain_common.Base.{
  ℕ, ◌+◌, ◌≡◌, refl, true, false, not, ◌&&◌, none, some, List, [], ◌∷◌, string_eq, nat_eq, String,
  ne_of_==,
}
use toolchain_common.Api.{kubernetes_names}
use toolchain_common.Condition.{
  Condition, add_or_update_status_condition, add_or_update_status_conditions, add_status_conditions,
  count, find_condition_by_type, is_true, is_not_true, is_false, is_true_with_reason,
  is_false_with_reason, stamp, add_or_update_status_conditions_with_last_updated_timestamp,
  update_loop, same_content, keep_transition, add_or_update_loop,
}
use toolchain_common.Condition.Lookup.{view, NodupTypes}
use toolchain_common.Condition.Update.{
  view-add_or_update, changed-add_or_update, unchanged-add_or_update,
}
use toolchain_common.Condition.Batch.{
  add_or_update-NodupTypes, add_or_update_unchanged, add_or_update_idempotent,
}
use toolchain_common.Condition.Queries.{is_true_or_not, is_true-add_or_update, count-eq-with_reason}

abbrev pub condition : String → String → String → ℕ → Condition
condition type status reason time = record {
  type = type;
  status = status;
  reason = reason;
  message = "";
  last_transition_time = time;
  last_updated_time = none;
}

abbrev pub conditions : List Condition
conditions = condition "Ready" "False" "Starting" 3 ∷ condition "Synced" "True" "Done" 4 ∷ []

abbrev news : List Condition
news = condition "Ready" "True" "Running" 0 ∷ condition "Synced" "True" "Done" 0 ∷ []

-- The first condition changes its status and gets a new transition time, the second stays.
update_run :
    add_or_update_status_conditions conditions news (λ k. 10 + k)
    ≡ (condition "Ready" "True" "Running" 10 ∷ condition "Synced" "True" "Done" 4 ∷ [], true)
unfolding add_or_update_status_conditions add_or_update_loop add_or_update_status_condition
    update_loop stamp same_content keep_transition string_eq
update_run = refl

add_run :
    add_status_conditions conditions (condition "Ready" "True" "" 0 ∷ []) (λ k. 10 + k)
    ≡ condition "Ready" "False" "Starting" 3
      ∷ condition "Synced" "True" "Done" 4
      ∷ condition "Ready" "True" "" 10
      ∷ []
unfolding add_status_conditions nat_eq
add_run = refl

abbrev ready : Condition
ready = condition "Ready" "True" "Running" 0

view-add_or_update_example :
    view (add_or_update_status_condition conditions ready false 10).0 "Ready"
    ≡ some (condition "Ready" "True" "Running" 10)
unfolding view find_condition_by_type stamp same_content keep_transition string_eq
view-add_or_update_example = view-add_or_update conditions ready false 10 "Ready"

changed-add_or_update_example : (add_or_update_status_condition conditions ready false 10).1 ≡ true
unfolding view find_condition_by_type stamp same_content keep_transition string_eq
changed-add_or_update_example = changed-add_or_update conditions ready false 10

abbrev same : Condition
same = condition "Synced" "True" "Done" 0

unchanged-add_or_update_example :
    (add_or_update_status_condition conditions same false 10).0 ≡ conditions
unfolding add_or_update_status_condition update_loop stamp same_content keep_transition string_eq
unchanged-add_or_update_example = unchanged-add_or_update conditions same false 10 refl

pub conditions-NodupTypes : NodupTypes conditions
unfolding view find_condition_by_type string_eq
conditions-NodupTypes = (refl, (refl, tt))

news-NodupTypes : NodupTypes news
unfolding view find_condition_by_type string_eq
news-NodupTypes = (refl, (refl, tt))

add_or_update-NodupTypes_example :
    NodupTypes (add_or_update_status_conditions conditions news (λ k. 10 + k)).0
    × NodupTypes
        (add_or_update_status_conditions_with_last_updated_timestamp conditions news (λ k. 10 + k))
add_or_update-NodupTypes_example =
    add_or_update-NodupTypes conditions news (λ k. 10 + k) conditions-NodupTypes

add_or_update_unchanged_example :
    (add_or_update_status_conditions conditions (same ∷ []) (λ k. 10 + k)).0 ≡ conditions
unfolding add_or_update_status_conditions add_or_update_loop add_or_update_status_condition
    update_loop stamp same_content keep_transition string_eq
add_or_update_unchanged_example = add_or_update_unchanged conditions (same ∷ []) (λ k. 10 + k) refl

add_or_update_idempotent_example :
    let cs' = (add_or_update_status_conditions conditions news (λ k. 10 + k)).0 in
    add_or_update_status_conditions cs' news (λ k. 90 + k) ≡ (cs', false)
add_or_update_idempotent_example =
    add_or_update_idempotent conditions news (λ k. 10 + k) (λ k. 90 + k) news-NodupTypes

is_true_or_not_example :
    (is_not_true kubernetes_names conditions "Ready"
      ≡ not (is_true kubernetes_names conditions "Ready"))
    × ((is_true kubernetes_names conditions "Ready" && is_false kubernetes_names conditions "Ready")
        ≡ false)
unfolding string_eq
is_true_or_not_example =
    is_true_or_not kubernetes_names conditions "Ready" (ne_of_== "True" "False" refl)

is_true-add_or_update_example :
    is_true kubernetes_names (add_or_update_status_condition conditions ready false 10).0 "Ready"
    ≡ true
unfolding string_eq
is_true-add_or_update_example =
    is_true-add_or_update kubernetes_names conditions ready false 10 "Ready"

count-eq-with_reason_example :
    (count conditions "Synced" "True" "Done" ≡ 1) × (count conditions "Synced" "False" "Done" ≡ 0)
unfolding is_true_with_reason is_false_with_reason find_condition_by_type string_eq
count-eq-with_reason_example =
    count-eq-with_reason kubernetes_names conditions "Synced" "Done" conditions-NodupTypes
