-- ===== src/Status/Requests.antt =====
-- How often pkg/status/versionchecks.go calls GitHub.
use toolchain_common.Base.{
  ℕ, ◌+◌, ◌<◌, String, ◌≡◌, ◌≢◌, refl, ◌∙◌, ap, Bool, true, false, Option, none, some, List, ◌==◌,
  string_eq, nat_eq, arith, ◌⊎◌, inl, inr, if◌then◌else◌, Bool-cases, eq_of_==, ne_of_==,
}
use toolchain_common.Base.Dict.{Dict, lookup, insert, lookup-insert}
use toolchain_common.Api.{ConditionNames}
use toolchain_common.Condition.{Condition}
use toolchain_common.Status.Components.{StatusReasons}
use toolchain_common.Status.Version.{
  GithubRepository, CommitResponse, Formats, github_api_call_delay, can_issue_github_request,
  is_blocked, check_deployed_version_is_up_to_date,
}

-- More than the delay has passed since the last call, if there was one; 0 is Go's zero time.
abbrev pub IsDue : Option ℕ → ℕ → Type 0
IsDue none now = Unit
IsDue (some last_call) now = (last_call ≡ 0) ⊎ (last_call + github_api_call_delay < now)

is_free-IsDue :
    (last_call : Option ℕ) (now : ℕ) → is_blocked last_call now ≡ false → IsDue last_call now
unfolding is_blocked can_issue_github_request
is_free-IsDue none now free = tt
is_free-IsDue (some last_call) now free = ground arith

is_blocked-IsDue :
    (last_call : Option ℕ) (now : ℕ) → is_blocked last_call now ≡ true → ¬ IsDue last_call now
unfolding is_blocked can_issue_github_request
is_blocked-IsDue none now blocked due = ground arith
is_blocked-IsDue (some last_call) now blocked (inl never) = ground arith
is_blocked-IsDue (some last_call) now blocked (inr passed) = ground arith

-- In production, with an access token, and with no call of the last minute.
abbrev pub IsAllowed : Bool → String → Option ℕ → ℕ → Type 0
IsAllowed is_prod key last_call now = (is_prod ≡ true) × (key ≢ "") × IsDue last_call now

-- A check stores the reading of the clock as the last call of the repository, and leaves the calls of all
-- others, exactly if it runs in production, has an access token, and more than a minute has passed since
-- the repository's last call, where a repository with no last call, or with the zero time as its last
-- call, has to wait for nothing; otherwise the calls stay as they are.
pub check_deployed_version_is_up_to_date-IsDue :
    (names : ConditionNames) (r : StatusReasons) (f : Formats)
    (get_commit : GithubRepository → CommitResponse) (clock : ℕ → ℕ) (is_prod : Bool) (key : String)
    (existing : List Condition) (repo : GithubRepository) (calls : Dict String ℕ) (name : String)
    → (IsAllowed is_prod key (lookup repo.name calls) (clock 0)
        × (lookup name
              (check_deployed_version_is_up_to_date names r f get_commit clock is_prod key existing
                repo calls).1
            ≡ (if name == repo.name then some (clock 1) else lookup name calls)))
      ⊎ ((¬ IsAllowed is_prod key (lookup repo.name calls) (clock 0))
          × ((check_deployed_version_is_up_to_date names r f get_commit clock is_prod key existing
                repo calls).1
              ≡ calls))
unfolding check_deployed_version_is_up_to_date
check_deployed_version_is_up_to_date-IsDue names r f get_commit clock false key existing repo calls
      name =
    inr (λ allowed. ground arith, refl)
check_deployed_version_is_up_to_date-IsDue names r f get_commit clock true key existing repo calls
      name =
    by_key (Bool-cases (key == ""))
  where
    last : Option ℕ
    last = lookup repo.name calls

    after : Bool → Bool → Dict String ℕ
    after no_key blocked =
        if no_key then calls else (if blocked then calls else insert repo.name (clock 1) calls)

    check : Condition × Dict String ℕ
    check =
        check_deployed_version_is_up_to_date names r f get_commit clock true key existing repo calls

    after_lem : check.1 ≡ after (key == "") (is_blocked last (clock 0))
    after_lem = ground arith

    Goal : Type 0
    Goal =
        (IsAllowed true key last (clock 0)
          × (lookup name check.1
              ≡ (if name == repo.name then some (clock 1) else lookup name calls)))
        ⊎ ((¬ IsAllowed true key last (clock 0)) × (check.1 ≡ calls))

    by_delay :
        (key == "") ≡ false
        → (is_blocked last (clock 0) ≡ true) ⊎ (is_blocked last (clock 0) ≡ false)
        → Goal
    by_delay present (inl blocked) = inr (
      λ (prod, has_key, due). is_blocked-IsDue last (clock 0) blocked due,
      after_lem ∙ ap (λ b. after b (is_blocked last (clock 0))) present ∙ ap (after false) blocked,
    )
    by_delay present (inr free) = inl (
      (refl, ne_of_== key "" present, is_free-IsDue last (clock 0) free),
      ap (lookup name) (
            after_lem
            ∙ ap (λ b. after b (is_blocked last (clock 0))) present
            ∙ ap (after false) free)
          ∙ lookup-insert name repo.name (clock 1) calls,
    )

    by_key : ((key == "") ≡ true) ⊎ ((key == "") ≡ false) → Goal
    by_key (inl missing) = inr (
      λ (prod, has_key, due). has_key (eq_of_== key "" missing),
      after_lem ∙ ap (λ b. after b (is_blocked last (clock 0))) missing,
    )
    by_key (inr present) = by_delay present (Bool-cases (is_blocked last (clock 0)))
