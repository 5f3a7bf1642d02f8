-- ===== src/JudgeApi.antt =====
-- judge/judgeapi.py: how the site sends submissions to the bridge and aborts them, over the tables
-- and the list of judges; and `Submission.judge` of judge/models/submission.py.
pub mod Requests
use study_sys.Prelude.{
  ℕ, Bool, true, false, ◌&&◌, ◌||◌, not, Option, none, some, if◌then◌else◌, ◌==◌, String, ltb,
}
use study_sys.Grading.{ie, ab}
use study_sys.Store.{
  Status, Submission, Store, queued, processing, grading, done, aborted, update_rows, has_row,
  update_submission, delete_cases,
}
use study_sys.Bridge.Judge.{Request}
use study_sys.Bridge.JudgeList.{JudgeList, World}
use study_sys.Bridge.DjangoHandler.{
  DjangoPacket, submission_request, terminate_submission, Reply, submission_received, judge_aborted,
  on_packet,
}

-- What both processes share.
pub record Site : Type 0 where
  pub store : Store
  pub judges : JudgeList

-- The connection of `judge_request`: it is there, it fails before the bridge has the packet, or it
-- fails before the answer has come.
pub data Link : Type 0 where
  up no_connection no_answer : Link

-- `judge_request`; no answer stands for an exception.
unfoldable pub judge_request :
    Link → World → (ℕ → ℕ) → DjangoPacket → JudgeList → JudgeList × Option Reply
judge_request up world draw p s = let (t, r) = on_packet world draw p s in (t, some r)
judge_request no_connection world draw p s = (s, none)
judge_request no_answer world draw p s = ((on_packet world draw p s).0, none)

-- The arguments of `judge_submission`, with what it reads of the submission. `contest` has the
-- answers `run_pretests_only` and `is_pretested`, if the submission is in a contest.
pub record Job : Type 0 where
  pub request : Request
  pub rejudge : Bool
  pub batch_rejudge : Bool
  pub contest : Option (Bool × Bool)

-- The constants of judge/judge_priority.py.
unfoldable pub priority : Job → ℕ
priority job =
    if job.batch_rejudge
    then 3
    else if job.rejudge
    then 2
    else (elim job.contest [ none ↦ 1 | some _ ↦ 0 ])

-- `updates`
unfoldable pub reset : Option (Bool × Bool) → Submission → Submission
reset contest s = record s {
  time = none;
  memory = none;
  points = none;
  result = none;
  case_points = 0;
  case_total = 0;
  error = none;
  status = queued;
  is_pretested = elim contest [
    | none ↦ s.is_pretested
    | some (pretests_only, pretested) ↦ pretests_only && pretested
  ];
}

-- `exclude(status__in=('P', 'G'))`
unfoldable pub may_judge : Submission → Bool
may_judge s = elim s.status [ processing ↦ false | grading ↦ false | _ ↦ true ]

abbrev pub set_internal_error : Submission → Submission
set_internal_error s = record s { status = Status.internal_error; result = some ie }

-- The table after the update and the deletion of the test cases.
unfoldable pub prepare : Job → Store → Store
unfolding delete_cases
prepare job t = delete_cases job.request.id (record t {
  submissions = update_rows job.request.id may_judge (reset job.contest) t.submissions;
})

-- What the answer of the bridge makes of the table, and what `judge_submission` returns.
unfoldable pub conclude : ℕ → Option Reply → Store → Store × Bool
conclude id none t = (update_submission id set_internal_error t, false)
conclude id (some (submission_received k)) t =
    if k == id then (t, true) else (update_submission id set_internal_error t, true)
conclude id (some _) t = (update_submission id set_internal_error t, true)

unfoldable pub judge_submission : Link → World → (ℕ → ℕ) → Job → Site → Site × Bool
unfolding prepare conclude
judge_submission link world draw job s =
    let id = job.request.id in
    let (judges, reply) =
      judge_request link world draw (submission_request (priority job) job.request) s.judges in
    let (store, success) = conclude id reply (prepare job s.store) in
    if has_row id may_judge s.store.submissions
    then (record { store = store; judges = judges }, success)
    else (s, false)

-- `Submission.judge`: a locked submission is judged again only by force.
unfoldable pub judge : Bool → Bool → Link → World → (ℕ → ℕ) → Job → Site → Site
judge force_judge is_locked link world draw job s =
    if force_judge || not is_locked then (judge_submission link world draw job s).0 else s

abbrev pub set_aborted : Submission → Submission
set_aborted s = record s { status = aborted; result = some ab; points = some 0 }

-- `response.get('judge-aborted', True)`
unfoldable pub was_sent : Reply → Bool
was_sent (judge_aborted b) = b
was_sent _ = true

-- `status` is the one in memory. No site is the exception of `judge_request`.
unfoldable pub abort_submission : Link → World → (ℕ → ℕ) → ℕ → Status → Site → Option Site
unfolding was_sent
abort_submission link world draw id done s = some s
abort_submission link world draw id status s =
    let (judges, reply) = judge_request link world draw (terminate_submission id) s.judges in
    elim reply [
      | none ↦ none
      | some r ↦ some record {
        judges = judges;
        store = if was_sent r then s.store else update_submission id set_aborted s.store;
      }
    ]
