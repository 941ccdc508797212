-- ===== src/Condition/Queries.antt =====
-- The tests on conditions: `IsTrue` and its kin, and `Count`.
use toolchain_common.Base.{
  ℕ, ◌+◌, String, ◌≡◌, refl, Bool, false, not, ◌&&◌, none, some, List, [], ◌∷◌, ◌==◌, string_eq,
  if◌then◌else◌, arith,
}
use toolchain_common.Api.{ConditionNames, DistinctStatuses}
use toolchain_common.Condition.{
  Condition, is_true, is_false, is_not_true, is_true_with_reason, same_content,
  is_false_with_reason, count, count_loop, matches, stamp, keep_transition,
  add_or_update_status_condition,
}
use toolchain_common.Condition.Lookup.{view, view-nil, view-cons, NodupTypes}
use toolchain_common.Condition.Update.{view-add_or_update}

module _ (names : ConditionNames) (cs : List Condition) (t : String) where
  -- `IsNotTrue` is the negation of `IsTrue`, and a condition is not both true and false if the two
  -- statuses have different names.
  pub is_true_or_not :
      DistinctStatuses names
      → (is_not_true names cs t ≡ not (is_true names cs t))
        × ((is_true names cs t && is_false names cs t) ≡ false)
  unfolding is_true is_false is_not_true
  is_true_or_not d = ground arith

  is_true-eq-view :
      is_true names cs t
      ≡ (elim (view cs t) [ none ↦ false | some c ↦ c.status == names.status_true ])
  unfolding is_true view
  is_true-eq-view = ground arith

-- After a condition is added or updated, `IsTrue` tells of its type whether the new status is true,
-- and of all other types what it told before.
pub is_true-add_or_update :
    (names : ConditionNames) (cs : List Condition) (new : Condition) (forced : Bool) (now : ℕ)
    (t : String)
    → is_true names (add_or_update_status_condition cs new forced now).0 t
      ≡ (if new.type == t then new.status == names.status_true else is_true names cs t)
unfolding same_content keep_transition stamp
is_true-add_or_update names cs new forced now t = ground (
  arith,
  is_true-eq-view names (add_or_update_status_condition cs new forced now).0 t,
  is_true-eq-view names cs t,
  view-add_or_update cs new forced now t,
)

count_loop-add :
    (cs : List Condition) (t s r : String) (n : ℕ)
    → count_loop cs t s r n ≡ n + count_loop cs t s r 0
unfolding count_loop
count_loop-add [] t s r n = omega arith
count_loop-add (c ∷ cs) t s r n =
    ground
      (arith, count_loop-add cs t s r (n + 1), count_loop-add cs t s r 1, count_loop-add cs t s r n)

count_of_absent :
    (cs : List Condition) (t s r : String) → view cs t ≡ none → count_loop cs t s r 0 ≡ 0
unfolding count_loop matches
count_of_absent [] t s r h = refl
count_of_absent (c ∷ cs) t s r h = ground (arith, count_of_absent cs t s r, view-cons c cs t)

count-eq-view :
    (cs : List Condition) (t s r : String)
    → NodupTypes cs
    → count_loop cs t s r 0
      ≡ (elim (view cs t) [ none ↦ 0 | some c ↦ if c.status == s && c.reason == r then 1 else 0 ])
unfolding count_loop matches
count-eq-view [] t s r u = rw view-nil
count-eq-view (c ∷ cs) t s r (fresh, u) = ground (
  arith,
  count-eq-view cs t s r u,
  view-cons c cs t,
  count_loop-add cs t s r 1,
  count_of_absent cs t s r,
)

-- Where no type occurs twice, `Count` of the true status is 1 or 0, as `IsTrueWithReason` says, and
-- of the false status as `IsFalseWithReason` says.
pub count-eq-with_reason :
    (names : ConditionNames) (cs : List Condition) (t r : String)
    → NodupTypes cs
    → (count cs t names.status_true r ≡ (if is_true_with_reason names cs t r then 1 else 0))
      × (count cs t names.status_false r ≡ (if is_false_with_reason names cs t r then 1 else 0))
unfolding count is_true_with_reason is_false_with_reason view
count-eq-with_reason names cs t r u =
    ground
      (arith, count-eq-view cs t names.status_true r u, count-eq-view cs t names.status_false r u)
