-- ===== src/Github/Failure.antt =====
-- packages/github/src/services/github-result.ts, and `getHeadCommit` of repository.github.ts. What
-- Octokit answers or throws is an argument.
use ai_powered_github_pr_rev.Prelude.{
  ℕ, String, Bool, false, not, ◌&&◌, ◌||◌, Option, none, some, nat_beq, if◌then◌else◌,
}
use ai_powered_github_pr_rev.Prelude.Equality.{◌==◌, text_equality}

pub data GithubFailureReason : Type 0 where
  not_accessible unavailable unauthenticated : GithubFailureReason

-- What the code reads of a thrown value: `status` when it is a number, and which headers
-- `response.headers` has, when there is one.
pub record Headers : Type 0 where
  pub ratelimit_remaining : Bool
  pub retry_after : Bool

pub record GithubError : Type 0 where
  pub status : Option ℕ
  pub headers : Option Headers

abbrev pub status_is : ℕ → Option ℕ → Bool
status_is n none = false
status_is n (some status) = nat_beq status n

unfoldable pub has_rate_limit_headers : Option Headers → Bool
has_rate_limit_headers none = false
has_rate_limit_headers (some headers) = headers.ratelimit_remaining || headers.retry_after

unfoldable pub classify_github_error : GithubError → GithubFailureReason
unfolding has_rate_limit_headers
classify_github_error error =
    if status_is 401 error.status
    then unauthenticated
    else if status_is 404 error.status
    then not_accessible
    else if status_is 403 error.status && not (has_rate_limit_headers error.headers)
    then not_accessible
    else unavailable

-- GitHub's answer: a body, with its `sha` when that is a text, or an error.
pub data CommitResponse : Type 0 where
  body : Option String → CommitResponse
  raised : GithubError → CommitResponse

pub data CommitResult : Type 0 where
  commit : String → CommitResult
  no_commit : GithubFailureReason → CommitResult

unfoldable pub get_head_commit : CommitResponse → CommitResult
unfolding classify_github_error
get_head_commit (body none) = no_commit unavailable
get_head_commit (body (some sha)) = if sha == "" then no_commit unavailable else commit sha
get_head_commit (raised error) = no_commit (classify_github_error error)
