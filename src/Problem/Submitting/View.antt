-- ===== src/Problem/Submitting/View.antt =====
-- judge/views/problem.py, `ProblemSubmit`: the checks of the form and of the view, what a submission
-- saves, and the request from `dispatch` on.
use study_sys.Prelude.{
  ℕ, ◌+◌, Bool, true, false, ◌&&◌, ◌||◌, not, Option, none, some, List, [], ◌∷◌, String, leb, ◌==◌,
  str_eq, if◌then◌else◌, elem, elem_text, keep, any, count, map, zero,
}
use study_sys.Viewer.{Viewer, spam_submission, resubmit_other}
use study_sys.Problem.{is_accessible_by, is_editable_by}
use study_sys.Store.{Submission, queued}
use study_sys.Bridge.Judge.{is_given}
use study_sys.Bridge.JudgeList.{World}
use study_sys.JudgeApi.{Site, Link, Job, judge}
use study_sys.Contest.Participation.{is_live}
use study_sys.Submission.{is_locked}
use study_sys.Problem.Submitting.{
  ContestProblem, Current, ContestSubmission, Target, Attempt, Tables, Response, not_found,
  login_required, permission_denied, forbidden, invalid, too_many, banned, limit_exceeded,
  submitted, contest_problem, has_ended, status_is, remaining_submission_count,
}

-- The setting `DMOJ_SUBMISSION_LIMIT`, the time, the connection to the bridge and its world;
-- `strip` takes the blanks off the ends of a source, as Django's CharField does, and `is_short` says
-- that a source has at most 65536 characters.
pub record Setting : Type 0 where
  pub limit : ℕ
  pub now : ℕ
  pub strip : String → String
  pub is_short : String → Bool
  pub link : Link
  pub world : World
  pub draw : ℕ → ℕ

-- `problem.usable_languages`
unfoldable pub usable_languages : Target → List String
usable_languages p =
    keep (λ l. any (λ j. j.online && elem_text l j.languages) p.judges) p.allowed_languages

-- `judge_choices` of `get_form_kwargs`
unfoldable pub judge_choices : Viewer → Target → List String
judge_choices user p =
    if is_editable_by user p.problem then map (λ j. j.name) (keep (λ j. j.online) p.judges) else []

-- The posted form.
pub record Form : Type 0 where
  pub language : String
  pub source : String
  pub judge : Option String

-- The fields of `ProblemSubmitForm`: a language that the problem has a judge for, a judge among the
-- choices, if any, and a source that is not blank.
unfoldable pub is_valid : Setting → Viewer → Target → Form → Bool
unfolding is_given usable_languages judge_choices
is_valid e user p form =
    elem_text form.language (usable_languages p)
    && not (str_eq (e.strip form.source) "")
    && e.is_short (e.strip form.source)
    && (elim form.judge [
      | none ↦ true
      | some j ↦ not (is_given (some j)) || elem_text j (judge_choices user p)
    ])

-- `cleaned_data`
abbrev pub cleaned : Setting → Form → Form
cleaned e form = record form { source = e.strip form.source }

-- The first checks of `form_valid`; no response lets the submission through.
abbrev pub is_waiting : ℕ → List Submission → Attempt → Bool
is_waiting user rows a = a.user == user && not a.is_rejudged && not (status_is has_ended a.id rows)

unfoldable pub refusal : ℕ → Viewer → Option Current → Target → Form → Tables → Option Response
refusal limit user current p form t =
    if not (user.has_perm spam_submission)
      && leb limit (count (is_waiting user.id t.site.store.submissions) t.attempts)
    then some too_many
    else if not (elem_text form.language p.allowed_languages)
    then some permission_denied
    else if not user.is_superuser && elem user.id p.banned_users
    then some banned
    else (elim (remaining_submission_count p.problem.id current t) [
      | some zero ↦ some limit_exceeded
      | _ ↦ none
    ])

-- What the transaction saves.
abbrev pub new_row : ℕ → Target → Submission
new_row id p = record {
  id = id;
  status = queued;
  result = none;
  points = none;
  time = none;
  memory = none;
  case_points = 0;
  case_total = 0;
  error = none;
  current_testcase = 0;
  batch = false;
  is_pretested = false;
  judged_on = none;
  partial = p.partial;
  worth = p.points;
}

abbrev pub in_contest : Option Current → Option ContestProblem → Option ContestSubmission
in_contest (some c) (some k) = some record { problem = k; participation = c }
in_contest _ _ = none

abbrev pub lock_of : ContestSubmission → Option ℕ
lock_of s = if is_live s.participation.kind then s.participation.locked_after else none

unfoldable pub new_attempt : ℕ → Viewer → Target → Form → Option ContestSubmission → Attempt
new_attempt id user p form contest = record {
  id = id;
  user = user.id;
  problem = p.problem.id;
  language = form.language;
  source = form.source;
  is_rejudged = false;
  locked_after = elim contest [ none ↦ none | some s ↦ lock_of s ];
  contest_object = elim contest [ none ↦ none | some s ↦ some s.participation.contest ];
  contest = contest;
}

-- The call of `Submission.judge`.
abbrev pub new_job : ℕ → Target → Form → Option ContestSubmission → Job
new_job id p form contest = record {
  request = record {
    id = id;
    problem = p.code;
    language = form.language;
    source = form.source;
    judge_id = form.judge;
  };
  rejudge = false;
  batch_rejudge = false;
  contest = elim contest [
    | none ↦ none
    | some s ↦ some (s.participation.run_pretests_only, s.problem.is_pretested)
  ];
}

-- The site with the new row.
abbrev pub add_row : Submission → Site → Site
add_row row s = record s { store = record s.store { submissions = row ∷ s.store.submissions } }

unfoldable pub save : Setting → Viewer → Target → Form → Option ContestSubmission → Tables → Tables
unfolding new_attempt
save e user p form contest t = record t {
  site =
      judge true (is_locked (new_attempt t.next_id user p form contest).locked_after e.now) e.link
        e.world e.draw (new_job t.next_id p form contest) (add_row (new_row t.next_id p) t.site);
  attempts = new_attempt t.next_id user p form contest ∷ t.attempts;
  next_id = t.next_id + 1;
}

unfoldable pub form_valid :
    Setting → Viewer → Option Current → Target → Form → Tables → Tables × Response
unfolding refusal save
form_valid e user current p form t = elim (refusal e.limit user current p form t) [
  | some r ↦ (t, r)
  | none ↦
      let k = contest_problem p.problem.id current t.contest_problems in
      (save e user p form (in_contest current k) t, submitted t.next_id)
]

-- The user's current contest has the problem.
abbrev pub in_current : Option Current → Target → Tables → Bool
in_current current p t = elim (contest_problem p.problem.id current t.contest_problems) [
  | none ↦ false
  | some k ↦ true
]

-- `post`, with `get_object`; no target is a code that no problem has.
unfoldable pub post :
    Setting → Viewer → Option Current → Option Target → Form → Tables → Tables × Response
unfolding form_valid is_valid
post e user current none form t = (t, forbidden)
post e user current (some p) form t =
    if not (is_accessible_by (in_current current p t) false user p.problem)
    then (t, forbidden)
    else if not (is_valid e user p form)
    then (t, invalid)
    else form_valid e user current p (cleaned e form) t

-- The check of `dispatch` on the submission that the URL names.
unfoldable pub find_attempt : ℕ → List Attempt → Option Attempt
find_attempt id [] = none
find_attempt id (a ∷ rest) = if a.id == id then some a else find_attempt id rest

abbrev pub check_old : Viewer → Option Attempt → Option Response
check_old user none = some not_found
check_old user (some a) =
    if not (user.has_perm resubmit_other) && not (user.is_authenticated && a.user == user.id)
    then some permission_denied
    else none

unfoldable pub old_submission : Viewer → Option ℕ → Tables → Option Response
unfolding find_attempt
old_submission user none t = none
old_submission user (some id) t = check_old user (find_attempt id t.attempts)

unfoldable pub dispatch :
    Setting → Viewer → Option Current → Option ℕ → Option Target → Form → Tables → Tables × Response
unfolding post old_submission
dispatch e user current old p form t = elim (old_submission user old t) [
  | some r ↦ (t, r)
  | none ↦ if not user.is_authenticated then (t, login_required) else post e user current p form t
]
