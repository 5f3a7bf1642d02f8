-- ===== src/Tests/Submitting.antt =====
-- A contestant who has submitted once to a problem that takes two submissions.
use study_sys.Prelude.{
  ap, ◌≡◌, ◌≢◌, ◌⊎◌, ◌≤◌, ◌||◌, refl, true, false, none, some, [], ◌∷◌, not, max, elem, elem_text,
}
use study_sys.Store.{find_row}
use study_sys.Viewer.{Viewer}
use study_sys.Bridge.Judge.{is_given}
use study_sys.Bridge.JudgeList.{known}
use study_sys.Bridge.JudgeList.Steps.{init-IsSound}
use study_sys.JudgeApi.{up}
use study_sys.Contest.Participation.{live}
use study_sys.Problem.{is_accessible_by, is_editable_by}
use study_sys.Problem.Submitting.{
  status_is, find_contest_problem, ContestProblem, Current, Target, Attempt, Tables, submitted,
  limit_exceeded, contest_problem, get_contest_submission_count, remaining_submission_count,
}
use study_sys.Problem.Submitting.View.{Setting, Form, usable_languages, in_current, dispatch}
use study_sys.Problem.Submitting.Accepted.{
  is_submitted, queued_row, submitted_passed, dispatch_queues,
}
use study_sys.Problem.Submitting.Limit.{IsFresh, dispatch-limit}
use study_sys.Tests.Bridge.{pair, reliable, no_draw}
use study_sys.Tests.Contest.{user}
use study_sys.Tests.Problem.{sorting}
use study_sys.Tests.JudgeApi.{site}

abbrev member : Viewer
member = user 12 (5 ∷ [])

abbrev setting : Setting
setting = record {
  limit = 3;
  now = 1500;
  strip = λ s. s;
  is_short = λ s. true;
  link = up;
  world = reliable;
  draw = no_draw;
}

abbrev twice : ContestProblem
twice = record { contest = 1; problem = 7; max_submissions = some 2; is_pretested = false }

abbrev current : Current
current = record {
  participation = 4;
  kind = live;
  contest = 1;
  locked_after = none;
  run_pretests_only = true;
}

abbrev target : Target
target = record {
  problem = sorting;
  code = "aplusb";
  points = 1000;
  partial = true;
  allowed_languages = "PY3" ∷ "CPP17" ∷ [];
  banned_users = 13 ∷ [];
  judges = record { name = "north"; online = true; languages = "PY3" ∷ [] } ∷ [];
}

abbrev form : Form
form = record { language = "PY3"; source = "print(3)"; judge = none }

abbrev earlier : Attempt
earlier = record {
  id = 8;
  user = 12;
  problem = 7;
  language = "PY3";
  source = "print(2)";
  is_rejudged = false;
  locked_after = none;
  contest_object = some 1;
  contest = some record { problem = twice; participation = current };
}

abbrev start : Tables
start = record { site = site; contest_problems = twice ∷ []; attempts = earlier ∷ []; next_id = 9 }

program : Unit {0}
unfolding dispatch is_accessible_by contest_problem find_contest_problem status_is find_row
    remaining_submission_count get_contest_submission_count IsFresh
program = tt

answer : (dispatch setting member (some current) none (some target) form start).1 ≡ submitted 9
unfolding program
answer = refl

used_up :
    (dispatch setting member
      (some current)
      none
      (some target)
      form
      (record start { contest_problems = record twice { max_submissions = some 1 } ∷ [] })).1
    ≡ limit_exceeded
unfolding program
used_up = refl

submitted_passed_example :
    (member.is_authenticated ≡ true)
    × (is_accessible_by (in_current (some current) target start) false member sorting ≡ true)
    × (elem_text "PY3" (usable_languages target) ≡ true)
    × ((member.is_superuser || not (elem 12 target.banned_users)) ≡ true)
    × (remaining_submission_count 7 (some current) start ≢ some 0)
    × ((not (is_given none) || is_editable_by member sorting) ≡ true)
submitted_passed_example =
    submitted_passed setting member (some current) target form start none (ap is_submitted answer)

dispatch_queues_example :
    let (u, response) = dispatch setting member (some current) none (some target) form start in
    ((response ≡ submitted 9)
      × (known 9 u.site.judges ≡ true)
      × (find_row 9 u.site.store.submissions
          ≡ some (queued_row setting member (some current) target form start)))
    ⊎ ((is_submitted response ≡ false) × (u ≡ start))
dispatch_queues_example =
    dispatch_queues setting member (some current) target form start none (init-IsSound pair) refl

dispatch-limit_example :
    let u = (dispatch setting member (some current) none (some target) form start).0 in
    IsFresh u
    × (get_contest_submission_count current 7 u
        ≤ max 2 (get_contest_submission_count current 7 start))
unfolding program
dispatch-limit_example =
    dispatch-limit setting member current none target form start twice 2 refl refl refl
