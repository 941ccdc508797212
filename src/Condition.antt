-- ===== src/Condition.antt =====
-- pkg/condition/condition.go: the status conditions of a resource. A nil slice and an empty one give
-- the same results, so both are the empty list. `metav1.Now()` is a reading of a clock: the call with
-- number `k` returns `clock k`, and the zero time is 0.
pub mod Lookup
pub mod Update
pub mod Batch
pub mod Queries
pub mod Tests
use toolchain_common.Base.{
  ℕ, zero, suc, ◌+◌, String, Bool, true, false, not, ◌&&◌, ◌||◌, Option, none, some, List, [], ◌∷◌,
  ◌++◌, ◌==◌, string_eq, nat_eq, if◌then◌else◌,
}
use toolchain_common.Api.{ConditionNames}

-- The fields of toolchainv1alpha1.Condition.
pub record Condition : Type 0 where
  pub type : String
  pub status : String
  pub reason : String
  pub message : String
  pub last_transition_time : ℕ
  pub last_updated_time : Option ℕ

abbrev pub zero_condition : Condition
zero_condition = record {
  type = "";
  status = "";
  reason = "";
  message = "";
  last_transition_time = 0;
  last_updated_time = none;
}

-- The stamp that the two assignments at the head of `addOrUpdateStatusCondition` put on.
unfoldable pub stamp : Condition → Bool → ℕ → Condition
stamp new update_last_updated now = record new {
  last_transition_time = now;
  last_updated_time = if update_last_updated then some now else new.last_updated_time;
}

-- The test that nothing has to be changed.
unfoldable pub same_content : Condition → Condition → Bool
same_content cond new =
    cond.status == new.status && (cond.reason == new.reason && cond.message == new.message)

-- The old transition time is kept if the status is the same.
unfoldable pub keep_transition : Condition → Condition → Condition
keep_transition cond new =
    if new.status == cond.status
    then record new { last_transition_time = cond.last_transition_time }
    else new

-- The loop over the conditions, and the append behind it.
unfoldable pub update_loop : List Condition → Condition → Bool → List Condition × Bool
update_loop [] new update_last_updated = (new ∷ [], true)
update_loop (cond ∷ rest) new update_last_updated =
    let (rest', updated) = update_loop rest new update_last_updated in
    if cond.type == new.type
    then (if not update_last_updated && same_content cond new
        then (cond ∷ rest, false)
        else (keep_transition cond new ∷ rest, true))
    else (cond ∷ rest', updated)

unfoldable pub add_or_update_status_condition :
    List Condition → Condition → Bool → ℕ → List Condition × Bool
add_or_update_status_condition conditions new update_last_updated now =
    update_loop conditions (stamp new update_last_updated now) update_last_updated

-- The loop of `addOrUpdateStatusConditions`, with the flag gathered so far and the clock's count.
unfoldable pub add_or_update_loop :
    List Condition → Bool → List Condition → Bool → (ℕ → ℕ) → ℕ → List Condition × Bool
add_or_update_loop conditions update_last_updated [] at_least_one clock k =
    (conditions, at_least_one)
add_or_update_loop conditions update_last_updated (new ∷ news) at_least_one clock k =
    let (conditions', updated) =
      add_or_update_status_condition conditions new update_last_updated (clock k) in
    add_or_update_loop conditions' update_last_updated news (at_least_one || updated) clock (k + 1)

unfoldable pub add_or_update_status_conditions_internal :
    List Condition → Bool → List Condition → (ℕ → ℕ) → List Condition × Bool
add_or_update_status_conditions_internal conditions update_last_updated news clock =
    add_or_update_loop conditions update_last_updated news false clock 0

unfoldable pub add_or_update_status_conditions :
    List Condition → List Condition → (ℕ → ℕ) → List Condition × Bool
unfolding add_or_update_status_conditions_internal
add_or_update_status_conditions conditions news clock =
    add_or_update_status_conditions_internal conditions false news clock

unfoldable pub add_or_update_status_conditions_with_last_updated_timestamp :
    List Condition → List Condition → (ℕ → ℕ) → List Condition
unfolding add_or_update_status_conditions_internal
add_or_update_status_conditions_with_last_updated_timestamp conditions news clock =
    (add_or_update_status_conditions_internal conditions true news clock).0

-- The clock is read only where the transition time is zero.
unfoldable pub add_status_conditions_loop :
    List Condition → List Condition → (ℕ → ℕ) → ℕ → List Condition
add_status_conditions_loop conditions [] clock k = conditions
add_status_conditions_loop conditions (new ∷ news) clock k =
    let unset = new.last_transition_time == 0 in
    add_status_conditions_loop
      (conditions ++ ((if unset then record new { last_transition_time = clock k } else new) ∷ []))
      news clock (if unset then k + 1 else k)

unfoldable pub add_status_conditions : List Condition → List Condition → (ℕ → ℕ) → List Condition
unfolding add_status_conditions_loop
add_status_conditions conditions news clock = add_status_conditions_loop conditions news clock 0

unfoldable pub find_condition_by_type : List Condition → String → Condition × Bool
find_condition_by_type [] condition_type = (zero_condition, false)
find_condition_by_type (cond ∷ rest) condition_type =
    if cond.type == condition_type then (cond, true) else find_condition_by_type rest condition_type

module _ (names : ConditionNames) where
  unfoldable pub is_true : List Condition → String → Bool
  is_true conditions condition_type =
      let (c, found) = find_condition_by_type conditions condition_type in
      found && c.status == names.status_true

  unfoldable pub is_false : List Condition → String → Bool
  is_false conditions condition_type =
      let (c, found) = find_condition_by_type conditions condition_type in
      found && c.status == names.status_false

  unfoldable pub is_not_true : List Condition → String → Bool
  is_not_true conditions condition_type =
      let (c, found) = find_condition_by_type conditions condition_type in
      not found || not (c.status == names.status_true)

  unfoldable pub is_false_with_reason : List Condition → String → String → Bool
  is_false_with_reason conditions condition_type reason =
      let (c, found) = find_condition_by_type conditions condition_type in
      found && (c.status == names.status_false && c.reason == reason)

  unfoldable pub is_true_with_reason : List Condition → String → String → Bool
  is_true_with_reason conditions condition_type reason =
      let (c, found) = find_condition_by_type conditions condition_type in
      found && (c.status == names.status_true && c.reason == reason)

unfoldable pub has_condition_reason : List Condition → String → String → Bool
has_condition_reason conditions condition_type reason =
    let (c, found) = find_condition_by_type conditions condition_type in found && c.reason == reason

unfoldable pub matches : Condition → String → String → String → Bool
matches c condition_type status reason =
    c.type == condition_type && (c.status == status && c.reason == reason)

unfoldable pub count_loop : List Condition → String → String → String → ℕ → ℕ
count_loop [] condition_type status reason count = count
count_loop (c ∷ rest) condition_type status reason count =
    count_loop rest condition_type status reason
      (if matches c condition_type status reason then count + 1 else count)

unfoldable pub count : List Condition → String → String → String → ℕ
unfolding count_loop matches
count conditions condition_type status reason = count_loop conditions condition_type status reason 0
