-- ===== src/Condition/Batch.antt =====
-- `AddOrUpdateStatusConditions` and `AddStatusConditions`: a sequence of new conditions.
use toolchain_common.Base.{
  ℕ, ◌+◌, ◌≡◌, refl, Bool, true, false, ◌||◌, none, List, [], ◌∷◌, string_eq, nat_eq, arith, ◌≢◌,
  All,
}
use toolchain_common.Condition.{
  Condition, same_content, keep_transition, stamp, add_or_update_status_condition,
  add_or_update_loop, add_or_update_status_conditions,
  add_or_update_status_conditions_with_last_updated_timestamp,
}
use toolchain_common.Condition.Lookup.{view, view-cons, NodupTypes, changed}
use toolchain_common.Condition.Update.{
  view-add_or_update, changed-add_or_update, unchanged-add_or_update, NodupTypes-add_or_update,
}

NodupTypes-loop :
    (cs : List Condition) (forced : Bool) (news : List Condition) (b : Bool) (clock : ℕ → ℕ) (k : ℕ)
    → NodupTypes cs
    → NodupTypes (add_or_update_loop cs forced news b clock k).0
unfolding add_or_update_loop
NodupTypes-loop cs forced [] b clock k u = u
NodupTypes-loop cs forced (new ∷ news) b clock k u =
    let c' = add_or_update_status_condition cs new forced (clock k) in
    NodupTypes-loop c'.0 forced news (b || c'.1) clock (k + 1)
      (NodupTypes-add_or_update cs new forced (clock k) u)

flag-loop :
    (cs : List Condition) (forced : Bool) (news : List Condition) (clock : ℕ → ℕ) (k : ℕ)
    → (add_or_update_loop cs forced news true clock k).1 ≡ true
unfolding add_or_update_loop
flag-loop cs forced [] clock k = refl
flag-loop cs forced (new ∷ news) clock k =
    flag-loop (add_or_update_status_condition cs new forced (clock k)).0 forced news clock (k + 1)

unchanged-loop :
    (cs : List Condition) (forced : Bool) (news : List Condition) (b : Bool) (clock : ℕ → ℕ) (k : ℕ)
    → (add_or_update_loop cs forced news b clock k).1 ≡ false
    → (add_or_update_loop cs forced news b clock k).0 ≡ cs
unfolding add_or_update_loop
unchanged-loop cs forced [] b clock k h = refl
unchanged-loop cs forced (new ∷ news) b clock k h =
    let c' = add_or_update_status_condition cs new forced (clock k) in
    ground (
      arith,
      unchanged-loop c'.0 forced news (b || c'.1) clock (k + 1) h,
      flag-loop c'.0 forced news clock (k + 1),
      unchanged-add_or_update cs new forced (clock k),
    )

-- A condition of the type is there and has the status, the reason and the message.
abbrev Settled : List Condition → Condition → Type 0
Settled cs new = changed false (view cs new.type) new ≡ false

Settled-add_or_update :
    (cs : List Condition) (new other : Condition) (now : ℕ)
    → new.type ≢ other.type
    → Settled cs other
    → Settled (add_or_update_status_condition cs new false now).0 other
Settled-add_or_update cs new other now h s =
    ground (arith, view-add_or_update cs new false now other.type)

Settled-self :
    (cs : List Condition) (new : Condition) (now : ℕ)
    → Settled (add_or_update_status_condition cs new false now).0 new
unfolding same_content keep_transition stamp
Settled-self cs new now = ground (arith, view-add_or_update cs new false now new.type)

Settled-add_or_update_loop :
    (cs : List Condition) (news : List Condition) (b : Bool) (clock : ℕ → ℕ) (k : ℕ)
    (other : Condition)
    → view news other.type ≡ none
    → Settled cs other
    → Settled (add_or_update_loop cs false news b clock k).0 other
unfolding add_or_update_loop
Settled-add_or_update_loop cs [] b clock k other fresh s = s
Settled-add_or_update_loop cs (new ∷ news) b clock k other fresh s =
    let c' = add_or_update_status_condition cs new false (clock k) in
    Settled-add_or_update_loop c'.0 news (b || c'.1) clock (k + 1) other
      (ground (arith, view-cons new news other.type))
      (Settled-add_or_update cs new other (clock k) (ground (arith, view-cons new news other.type))
        s)

All-Settled :
    (cs : List Condition) (news : List Condition) (b : Bool) (clock : ℕ → ℕ) (k : ℕ)
    → NodupTypes news
    → All (Settled (add_or_update_loop cs false news b clock k).0) news
unfolding add_or_update_loop
All-Settled cs [] b clock k u = tt
All-Settled cs (new ∷ news) b clock k (fresh, u) =
    let c' = add_or_update_status_condition cs new false (clock k) in
    (
      Settled-add_or_update_loop c'.0 news (b || c'.1) clock (k + 1) new fresh
          (Settled-self cs new (clock k)),
      All-Settled c'.0 news (b || c'.1) clock (k + 1) u,
    )

add_or_update_loop-Settled :
    (cs : List Condition) (news : List Condition) (clock : ℕ → ℕ) (k : ℕ)
    → All (Settled cs) news
    → add_or_update_loop cs false news false clock k ≡ (cs, false)
unfolding add_or_update_loop same_content stamp
add_or_update_loop-Settled cs [] clock k s = refl
add_or_update_loop-Settled cs (new ∷ news) clock k (s, ss) = ground (
  arith,
  add_or_update_loop-Settled cs news clock (k + 1) ss,
  changed-add_or_update cs new false (clock k),
  unchanged-add_or_update cs new false (clock k),
)

-- Neither function adds a type twice.
pub add_or_update-NodupTypes :
    (cs news : List Condition) (clock : ℕ → ℕ)
    → NodupTypes cs
    → NodupTypes (add_or_update_status_conditions cs news clock).0
      × NodupTypes (add_or_update_status_conditions_with_last_updated_timestamp cs news clock)
unfolding add_or_update_status_conditions
    add_or_update_status_conditions_with_last_updated_timestamp
add_or_update-NodupTypes cs news clock u =
    (NodupTypes-loop cs false news false clock 0 u, NodupTypes-loop cs true news false clock 0 u)

-- If `AddOrUpdateStatusConditions` reports no update, it returns the conditions that it was given.
pub add_or_update_unchanged :
    (cs news : List Condition) (clock : ℕ → ℕ)
    → (add_or_update_status_conditions cs news clock).1 ≡ false
    → (add_or_update_status_conditions cs news clock).0 ≡ cs
unfolding add_or_update_status_conditions
add_or_update_unchanged cs news clock = unchanged-loop cs false news false clock 0

-- If the new conditions have different types, then adding them again, at any later times, changes
-- nothing and reports no update.
pub add_or_update_idempotent :
    (cs news : List Condition) (clock later : ℕ → ℕ)
    → NodupTypes news
    → let cs' = (add_or_update_status_conditions cs news clock).0 in
      add_or_update_status_conditions cs' news later ≡ (cs', false)
unfolding add_or_update_status_conditions
add_or_update_idempotent cs news clock later u =
    add_or_update_loop-Settled _ news later 0 (All-Settled cs news false clock 0 u)
