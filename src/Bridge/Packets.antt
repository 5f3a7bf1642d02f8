-- ===== src/Bridge/Packets.antt =====
-- judge/bridge/judge_handler.py: what the packets of a judge do to the tables, to the handler and
-- to the list of judges. Events, logs and the rows of judges are not modelled, but for the posts
-- of test cases, which are limited in rate. Times are milliseconds.
pub mod Throttle
pub mod Isolation
pub mod Cases
pub mod Fates
use study_sys.Prelude.{
  ℕ, suc, Bool, true, false, not, Option, none, some, List, [], ◌∷◌, ◌++◌, ◌==◌, ◌+◌, ◌-◌,
  if◌then◌else◌, max, ltb, any, keep, String, ◌&&◌, map,
}
use study_sys.Prelude.Dict.{lookup, insert, delete}
use study_sys.Grading.{Verdict, TestCase, ie, ce, ab, decode_status, Grade, grade}
use mathlib.Core.Option.{map as map_option}
use study_sys.Store.{
  Status, Submission, CaseRow, Store, queued, processing, grading, done, aborted, update_rows,
  has_row, find_row, update_submission, delete_cases, cases_of, anyone,
}
use study_sys.Bridge.JudgeList.State.{JudgeList, Exception, find_judge}
use study_sys.Bridge.JudgeList as List_of_judges
pub use study_sys.Bridge.Session.{
  Fault, judges_fault, value_error, integrity_error, Session, CaseResult, Packet, grading_begin,
  grading_end, compile_message, batch_begin, batch_end, test_case_status, submission_terminated,
  submission_acknowledged, Answer, store_to,
}
unfoldable pub use study_sys.Bridge.TestCases.{
  update_rate_limit, update_rate_time, throttle, max_position, case_row, same_case, bulk_create,
  store_cases, add_results, on_test_case,
}

-- `self._working`, 0 for False.
unfoldable pub working : Session → ℕ
unfolding find_judge
working σ = elim (find_judge σ.oid σ.judges.handlers) [ none ↦ 0 | some j ↦ j.working ]

-- `_free_self`: an exception of the list of judges escapes from it.
unfoldable pub free_self : List_of_judges.World → ℕ → Session → Answer
free_self world id σ =
    let (judges, e) = List_of_judges.on_judge_free world σ.oid id σ.judges in
    (record σ { judges = judges }, map_option judges_fault e)

-- A handler that frees the judge and then works on the tables.
abbrev pub freed : Answer → (Session → Answer) → Answer
freed (σ, none) f = f σ
freed (σ, some e) f = (σ, some e)

abbrev pub fail_with : Status → Verdict → Option String → Submission → Submission
fail_with s v log row = record row { status = s; result = some v; error = log }

unfoldable pub on_submission_processing : ℕ → Session → Session
on_submission_processing id σ =
    store_to σ
      (update_submission id (λ s. record s { status = processing; judged_on = some σ.judge }))

abbrev pub is_queued : Submission → Bool
is_queued s = elim s.status [ queued ↦ true | _ ↦ false ]

unfoldable pub on_submission_wrong_acknowledge : ℕ → ℕ → Store → Store
on_submission_wrong_acknowledge expected got t =
    let u = update_submission expected (fail_with Status.internal_error ie none) t in
    record u {
      submissions =
          update_rows got is_queued (fail_with Status.internal_error ie none) u.submissions;
    }

-- The method goes on after a wrong acknowledgement: `close` only shuts the socket.
unfoldable pub on_submission_acknowledged : ℕ → Session → Session
unfolding working on_submission_wrong_acknowledge on_submission_processing
on_submission_acknowledged id σ =
    if id == working σ
    then on_submission_processing id σ
    else on_submission_processing id
        (record σ { store = on_submission_wrong_acknowledge (working σ) id σ.store; closed = true })

unfoldable pub on_grading_begin : ℕ → Bool → Session → Session
on_grading_begin id pretested σ =
    let σ' = record σ { batch_id = none } in
    if has_row id anyone σ.store.submissions
    then store_to σ' (λ t. delete_cases id (
        update_submission id
          (λ s. record s {
            status = grading;
            is_pretested = pretested;
            current_testcase = 1;
            batch = false;
          })
          t))
    else σ'

abbrev pub graded : Grade → Submission → Submission
graded g s = record s {
  status = done;
  time = some g.time;
  memory = some g.memory;
  points = some g.points;
  case_points = g.case_points;
  case_total = g.case_total;
  result = some g.result;
}

-- What `on_grading_end` does once the judge is free.
unfoldable pub store_grade : ℕ → Session → Answer
store_grade id σ = elim (find_row id σ.store.submissions) [
  | none ↦ (record σ { batch_id = none }, none)
  | some s ↦ elim (grade s.partial s.worth (cases_of id σ.store.cases)) [
    | none ↦ (record σ { batch_id = none }, some value_error)
    | some g ↦ (store_to (record σ { batch_id = none }) (update_submission id (graded g)), none)
  ]
]

unfoldable pub on_grading_end : List_of_judges.World → ℕ → Session → Answer
unfolding free_self store_grade
on_grading_end world id σ = freed (free_self world id σ) (store_grade id)

unfoldable pub on_compile_error : List_of_judges.World → ℕ → String → Session → Answer
unfolding free_self
on_compile_error world id log σ =
    freed (free_self world id σ) (λ τ.
      (store_to τ (update_submission id (fail_with Status.compile_error ce (some log))), none))

unfoldable pub on_compile_message : ℕ → String → Session → Session
on_compile_message id log σ = store_to σ (update_submission id (λ s. record s { error = some log }))

unfoldable pub on_internal_error : List_of_judges.World → ℕ → String → Session → Answer
unfolding free_self
on_internal_error world id message σ = freed (free_self world id σ) (λ τ.
    (store_to τ (update_submission id (fail_with Status.internal_error ie (some message))), none))

unfoldable pub on_submission_terminated : List_of_judges.World → ℕ → Session → Answer
unfolding free_self
on_submission_terminated world id σ = freed (free_self world id σ) (λ τ. (
  store_to τ (
      update_submission id (λ s. record s { status = aborted; result = some ab; points = some 0 })),
  none,
))

-- The batches of a grading are numbered from 1; the first one marks the submission.
unfoldable pub begin_batch : Option ℕ → ℕ → Session → Session
begin_batch none id σ =
    store_to (record σ { in_batch = true; batch_id = some 1 })
      (update_submission id (λ s. record s { batch = true }))
begin_batch (some b) id σ = record σ { in_batch = true; batch_id = some (b + 1) }

unfoldable pub on_batch_begin : ℕ → Session → Session
unfolding begin_batch
on_batch_begin id σ = begin_batch σ.batch_id id σ

unfoldable pub on_batch_end : Session → Session
on_batch_end σ = record σ { in_batch = false }

-- `on_packet`: the handler that the name of the packet calls. The state stays as the handler left
-- it when it failed.
unfoldable pub on_packet : List_of_judges.World → ℕ → Packet → Session → Answer
unfolding on_grading_begin on_grading_end on_compile_error on_compile_message on_batch_begin
    on_batch_end on_test_case on_internal_error on_submission_terminated on_submission_acknowledged
on_packet world now (grading_begin id pretested) σ = (on_grading_begin id pretested σ, none)
on_packet world now (grading_end id) σ = on_grading_end world id σ
on_packet world now (Packet.compile_error id log) σ = on_compile_error world id log σ
on_packet world now (compile_message id log) σ = (on_compile_message id log σ, none)
on_packet world now (batch_begin id) σ = (on_batch_begin id σ, none)
on_packet world now (batch_end id) σ = (on_batch_end σ, none)
on_packet world now (test_case_status id results) σ = on_test_case now id results σ
on_packet world now (Packet.internal_error id message) σ = on_internal_error world id message σ
on_packet world now (submission_terminated id) σ = on_submission_terminated world id σ
on_packet world now (submission_acknowledged id) σ = (on_submission_acknowledged id σ, none)
