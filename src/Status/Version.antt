-- ===== src/Status/Version.antt =====
-- pkg/status/versionchecks.go, with `CanIssueGitHubRequest` of pkg/client/github_client.go.
use toolchain_common.Base.{
  ℕ, ◌+◌, String, ◌<>◌, Bool, false, not, ◌&&◌, ◌||◌, Option, none, some, List, ◌==◌, string_eq,
  nat_eq, ltb, if◌then◌else◌,
}
use toolchain_common.Base.Dict.{Dict, lookup, insert}
use toolchain_common.Api.{ConditionNames}
use toolchain_common.Condition.{Condition, find_condition_by_type}
use toolchain_common.Status.Components.{
  StatusReasons, new_component_ready_condition, new_component_error_condition,
}

-- One minute, and thirty.
abbrev pub github_api_call_delay : ℕ
github_api_call_delay = 60000000000

abbrev pub deployment_threshold : ℕ
deployment_threshold = 1800000000000

pub record GithubRepository : Type 0 where
  pub org : String
  pub name : String
  pub branch : String
  pub deployed_commit_sha : String

-- The SHA of a commit and its author's date.
pub record RepositoryCommit : Type 0 where
  pub sha : String
  pub date : ℕ

-- What GitHub answers: the message of the error, the status code, and the commit, none if it is nil or
-- empty.
pub record CommitResponse : Type 0 where
  pub error : Option String
  pub status_code : ℕ
  pub commit : Option RepositoryCommit

-- A commit or the text of an error.
pub data LatestCommit : Type 0 where
  latest : RepositoryCommit → LatestCommit
  no_commit : String → LatestCommit

-- `%d`, the SHA and time texts are those of Go's formats.
pub record Formats : Type 0 where
  pub number : ℕ → String
  pub time : ℕ → String

unfoldable pub can_issue_github_request : ℕ → ℕ → Bool
can_issue_github_request last_github_api_call now =
    last_github_api_call == 0 || ltb (last_github_api_call + github_api_call_delay) now

-- Whether a last call that is present forbids one now.
unfoldable pub is_blocked : Option ℕ → ℕ → Bool
unfolding can_issue_github_request
is_blocked none now = false
is_blocked (some last_call) now = not (can_issue_github_request last_call now)

unfoldable pub get_latest_commit : Formats → GithubRepository → CommitResponse → LatestCommit
get_latest_commit f repo response = elim response.error [
  | some message ↦ LatestCommit.no_commit message
  | none ↦
      if not (response.status_code == 200)
      then LatestCommit.no_commit (
          "invalid response code from github commits API. resp.Response.StatusCode: "
          <> (f.number response.status_code
              <> (", repoName: " <> (repo.name <> (", repoBranch: " <> repo.branch)))))
      else elim response.commit [
        | none ↦
            LatestCommit.no_commit (
              "no commits returned. repoName: " <> (repo.name <> (", repoBranch: " <> repo.branch)))
        | some commit ↦ LatestCommit.latest commit
      ]
]

module _ (names : ConditionNames) (r : StatusReasons) (f : Formats) where
  -- The clock is read for the test of the threshold, `later`, and for the condition, `now`.
  unfoldable pub check_commit : GithubRepository → LatestCommit → ℕ → ℕ → Condition
  unfolding new_component_ready_condition new_component_error_condition
  check_commit repo (LatestCommit.no_commit message) later now =
      new_component_error_condition names r.revision_check_github_error message now
  check_commit repo (LatestCommit.latest commit) later now =
      let expected = commit.date + deployment_threshold in
      if not (commit.sha == repo.deployed_commit_sha) && ltb expected later
      then new_component_error_condition names r.not_up_to_date
          ("deployment version is not up to date with latest github commit SHA. deployed commit SHA "
            <> (repo.deployed_commit_sha
                <> (" ,github latest SHA "
                    <> (commit.sha <> (", expected deployment timestamp: " <> f.time expected)))))
          now
      else new_component_ready_condition names r.up_to_date now

  -- What is answered while no request may be sent.
  unfoldable pub previous_condition : List Condition → ℕ → Condition
  unfolding new_component_error_condition
  previous_condition already_existing now =
      let (previously_set, found) = find_condition_by_type already_existing names.ready in
      if not found
      then new_component_error_condition names r.revision_check_operator_error
          "unable to find ConditionReady type in existing conditions. Waiting for next attempt ..."
          now
      else previously_set

  abbrev disabled : String → ℕ → Condition
  disabled message now =
      record (new_component_ready_condition names r.revision_check_disabled now) {
        message = message;
      }

  -- The last calls by the name of the repository are the manager's state. The clock is read for the
  -- test of the delay, for the call that is stored, and for `check_commit`: `clock` 0 to 3.
  unfoldable pub check_deployed_version_is_up_to_date :
      (GithubRepository → CommitResponse)
      → (ℕ → ℕ)
      → Bool
      → String
      → List Condition
      → GithubRepository
      → Dict String ℕ
      → Condition × Dict String ℕ
  unfolding is_blocked previous_condition check_commit get_latest_commit
  check_deployed_version_is_up_to_date get_commit clock is_prod access_token_key already_existing
        repo last_calls =
      let blocked = is_blocked (lookup repo.name last_calls) (clock 0) in
      if not is_prod
      then (disabled "is not running in prod environment" (clock 3), last_calls)
      else (if access_token_key == ""
          then (disabled "access token key is not provided" (clock 3), last_calls)
          else (if blocked then (previous_condition already_existing (clock 3), last_calls) else (
            check_commit repo (get_latest_commit f repo (get_commit repo)) (clock 2) (clock 3),
            insert repo.name (clock 1) last_calls,
          )))
