-- ===== src/Condition/Update.antt =====
-- `addOrUpdateStatusCondition`: one new condition.
use toolchain_common.Base.{
  ℕ, String, ◌≡◌, refl, Bool, false, some, List, [], ◌∷◌, ◌==◌, string_eq, if◌then◌else◌, arith,
}
use toolchain_common.Condition.{
  Condition, same_content, keep_transition, stamp, update_loop, add_or_update_status_condition,
}
use toolchain_common.Condition.Lookup.{
  view, view-nil, view-cons, NodupTypes, merged, changed, type-keep_transition, type-stamp,
}

view-update_loop :
    (cs : List Condition) (new : Condition) (forced : Bool) (t : String)
    → view (update_loop cs new forced).0 t
      ≡ (if new.type == t then some (merged forced (view cs new.type) new) else view cs t)
unfolding update_loop same_content keep_transition
view-update_loop [] new forced t = ground (arith, view-cons new [] t, view-nil t, view-nil new.type)
view-update_loop (c ∷ cs) new forced t = ground (
  arith,
  view-update_loop cs new forced t,
  type-keep_transition c new,
  view-cons c cs t,
  view-cons c cs new.type,
  view-cons (keep_transition c new) cs t,
  view-cons c (update_loop cs new forced).0 t,
)

changed-update_loop :
    (cs : List Condition) (new : Condition) (forced : Bool)
    → (update_loop cs new forced).1 ≡ changed forced (view cs new.type) new
unfolding update_loop same_content keep_transition
changed-update_loop [] new forced = rw view-nil refl
changed-update_loop (c ∷ cs) new forced =
    ground (arith, changed-update_loop cs new forced, view-cons c cs new.type)

unchanged-update_loop :
    (cs : List Condition) (new : Condition) (forced : Bool)
    → (update_loop cs new forced).1 ≡ false
    → (update_loop cs new forced).0 ≡ cs
unfolding update_loop
unchanged-update_loop [] new forced h = cc
unchanged-update_loop (c ∷ cs) new forced h = ground (arith, unchanged-update_loop cs new forced)

NodupTypes-update_loop :
    (cs : List Condition) (new : Condition) (forced : Bool)
    → NodupTypes cs
    → NodupTypes (update_loop cs new forced).0
unfolding update_loop
NodupTypes-update_loop [] new forced _ = (view-nil new.type, tt)
NodupTypes-update_loop (c ∷ cs) new forced (fresh, u) = ground (
  arith,
  NodupTypes-update_loop cs new forced u,
  view-update_loop cs new forced c.type,
  type-keep_transition c new,
)

module _ (cs : List Condition) (new : Condition) (forced : Bool) (now : ℕ) where
  -- The result, read as a table, is the old table with the entry of the new condition's type set:
  -- to the stamped condition if there was none, to the old one if nothing changed and no update is
  -- forced, and otherwise to the stamped condition, which keeps the old transition time if the
  -- status is the same. All other types keep their condition.
  pub view-add_or_update :
      (t : String)
      → view (add_or_update_status_condition cs new forced now).0 t ≡ (
          if new.type == t
          then some (merged forced (view cs new.type) (stamp new forced now))
          else view cs t)
  unfolding add_or_update_status_condition
  view-add_or_update t =
      ground (arith, view-update_loop cs (stamp new forced now) forced t, type-stamp new forced now)

  -- The flag is false exactly if no update is forced and a condition of the type is there with the
  -- status, the reason and the message of the new one.
  pub changed-add_or_update :
      (add_or_update_status_condition cs new forced now).1
      ≡ changed forced (view cs new.type) (stamp new forced now)
  unfolding add_or_update_status_condition
  changed-add_or_update =
      ground
        (arith, changed-update_loop cs (stamp new forced now) forced, type-stamp new forced now)

  -- If the flag is false, the conditions are the old ones.
  pub unchanged-add_or_update :
      (add_or_update_status_condition cs new forced now).1 ≡ false
      → (add_or_update_status_condition cs new forced now).0 ≡ cs
  unfolding add_or_update_status_condition
  unchanged-add_or_update = unchanged-update_loop cs (stamp new forced now) forced

  -- No type is added twice.
  pub NodupTypes-add_or_update :
      NodupTypes cs → NodupTypes (add_or_update_status_condition cs new forced now).0
  unfolding add_or_update_status_condition
  NodupTypes-add_or_update = NodupTypes-update_loop cs (stamp new forced now) forced
