-- ===== src/Problem/Submitting.antt =====
-- judge/views/problem.py, `ProblemSubmit`: the request that submits a solution, from the checks of
-- `dispatch` to the call of `Submission.judge`. A row of `Submission` is kept in two parts: what the
-- bridge writes is in the tables of `Site`, and what this view writes is an `Attempt`.
pub mod View
pub mod Accepted
pub mod Limit
use study_sys.Prelude.{
  ℕ, ◌+◌, ◌-◌, Bool, true, false, ◌&&◌, ◌||◌, not, Option, none, some, List, [], ◌∷◌, String, ltb,
  leb, ◌==◌, str_eq, if◌then◌else◌, elem, elem_text, keep, any, all, count, map,
}
use study_sys.Viewer.{Viewer, spam_submission, resubmit_other}
use study_sys.Problem.{Problem, is_accessible_by, is_editable_by}
use study_sys.Store.{Status, Submission, Store, queued, done, aborted, find_row}
use study_sys.Bridge.Judge.{is_given}
use study_sys.Bridge.JudgeList.{World}
use study_sys.JudgeApi.{Site, Link, Job, judge}
use study_sys.Contest.Participation.{Kind, spectate, live, virtual, is_live}

-- The fields that the view reads of a row of `ContestProblem`, of the participation that is the
-- user's current one, with its contest, and of a judge.
pub record ContestProblem : Type 0 where
  pub contest : ℕ
  pub problem : ℕ
  pub max_submissions : Option ℕ
  pub is_pretested : Bool

pub record Current : Type 0 where
  pub participation : ℕ
  pub kind : Kind
  pub contest : ℕ
  pub locked_after : Option ℕ
  pub run_pretests_only : Bool

pub record ContestSubmission : Type 0 where
  pub problem : ContestProblem
  pub participation : Current

pub record OnlineJudge : Type 0 where
  pub name : String
  pub online : Bool
  pub languages : List String

-- The problem with what it is related to.
pub record Target : Type 0 where
  pub problem : Problem
  pub code : String
  pub points : ℕ
  pub partial : Bool
  pub allowed_languages : List String
  pub banned_users : List ℕ
  pub judges : List OnlineJudge

pub record Attempt : Type 0 where
  pub id : ℕ
  pub user : ℕ
  pub problem : ℕ
  pub language : String
  pub source : String
  pub is_rejudged : Bool
  pub locked_after : Option ℕ
  pub contest_object : Option ℕ
  pub contest : Option ContestSubmission

-- `next_id` is the id that the database gives next.
pub record Tables : Type 0 where
  pub site : Site
  pub contest_problems : List ContestProblem
  pub attempts : List Attempt
  pub next_id : ℕ

pub data Response : Type 0 where
  not_found login_required permission_denied forbidden invalid : Response
  too_many banned limit_exceeded : Response
  submitted : ℕ → Response

-- `problem.contests.get(contest_id=…)`
unfoldable pub find_contest_problem : ℕ → ℕ → List ContestProblem → Option ContestProblem
find_contest_problem problem contest [] = none
find_contest_problem problem contest (c ∷ cs) =
    if c.problem == problem && c.contest == contest
    then some c
    else find_contest_problem problem contest cs

-- The property `contest_problem` over `get_contest_problem`.
unfoldable pub contest_problem : ℕ → Option Current → List ContestProblem → Option ContestProblem
contest_problem problem none rows = none
contest_problem problem (some c) rows = find_contest_problem problem c.contest rows

abbrev pub is_internal_error : Status → Bool
is_internal_error Status.internal_error = true
is_internal_error _ = false

-- `exclude(status__in=['D', 'IE', 'CE', 'AB'])` leaves what is queued, processed or graded.
abbrev pub has_ended : Status → Bool
has_ended done = true
has_ended Status.internal_error = true
has_ended Status.compile_error = true
has_ended aborted = true
has_ended _ = false

-- A test of the status of a submission.
unfoldable pub status_is : (Status → Bool) → ℕ → List Submission → Bool
status_is p id rows = elim (find_row id rows) [ none ↦ false | some s ↦ p s.status ]

abbrev pub same_kind : Kind → Kind → Bool
same_kind spectate spectate = true
same_kind live live = true
same_kind (virtual m) (virtual n) = m == n
same_kind _ _ = false

abbrev pub is_for : Current → ℕ → Option ContestSubmission → Bool
is_for c problem none = false
is_for c problem (some s) =
    s.participation.participation == c.participation
    && s.problem.problem == problem
    && same_kind s.participation.kind c.kind

abbrev pub is_counted : Current → ℕ → List Submission → Attempt → Bool
is_counted c problem rows a =
    is_for c problem a.contest && not (status_is is_internal_error a.id rows)

unfoldable pub get_contest_submission_count : Current → ℕ → Tables → ℕ
get_contest_submission_count c problem t =
    count (is_counted c problem t.site.store.submissions) t.attempts

abbrev pub remaining : ℕ → Option Current → Option ℕ → Tables → Option ℕ
remaining problem none max_subs t = none
remaining problem (some c) none t = none
remaining problem (some c) (some max_subs) t =
    some (max_subs - get_contest_submission_count c problem t)

abbrev pub max_submissions : Option ContestProblem → Option ℕ
max_submissions none = none
max_submissions (some c) = c.max_submissions

-- Subtraction on ℕ stops at zero, as the `max` of the source does.
unfoldable pub remaining_submission_count : ℕ → Option Current → Tables → Option ℕ
unfolding contest_problem
remaining_submission_count problem current t =
    remaining problem current (max_submissions (contest_problem problem current t.contest_problems))
      t
