-- ===== src/JudgeApi/Requests.antt =====
-- What requests of the site do to the tables and to the list of judges together.
use study_sys.Prelude.{==_self, ◌==◌, Option, Bool, ℕ, ◌≡◌, refl, true, false, some, [], arith}
use study_sys.Store.{
  Submission, Store, processing, find_row, cases_of, anyone, update_submission, delete_cases,
  has_row-found, find_row-updated, has_row-none, cases_of-deleted,
}
use study_sys.Bridge.JudgeList.{World, known, check_priority, JudgeList}
use study_sys.Bridge.JudgeList.Steps.{IsSound}
use study_sys.Bridge.JudgeList.Freeing.{judge_remembers}
use study_sys.Bridge.DjangoHandler.{
  submission_request, submission_received, on_submission, on_packet,
}
use study_sys.Bridge.Packets.{
  Session, working, on_submission_acknowledged, on_submission_processing,
  on_submission_wrong_acknowledge,
}
use study_sys.JudgeApi.{
  Site, Link, up, no_answer, judge_request, Job, priority, reset, may_judge, set_internal_error,
  prepare, conclude, judge_submission,
}

priority_valid : (job : Job) → check_priority (priority job) ≡ true
unfolding priority check_priority
priority_valid job = ground arith

-- The bridge's side of the request.
request_known :
    (world : World) (draw : ℕ → ℕ) (job : Job) (s : Site)
    → IsSound s.judges
    → let (t, reply) =
        on_packet world draw (submission_request (priority job) job.request) s.judges in
      (reply ≡ submission_received job.request.id) × (known job.request.id t ≡ true)
unfolding on_packet on_submission
request_known world draw job s sound =
    let (t, e, k, _) =
      judge_remembers 0 world draw (priority job) 0 job.request s.judges (priority_valid job)
        sound in
    rw (priority_valid job, e, on_submission) (refl, k)

-- What `prepare` leaves of a submission that may be judged.
record IsPrepared (job : Job) (old : Submission) (t : Store) : Type 0 where
  row : find_row job.request.id t.submissions ≡ some (reset job.contest old)
  no_cases : cases_of job.request.id t.cases ≡ []

pub reset-id : (contest : Option (Bool × Bool)) (s : Submission) → (reset contest s).id ≡ s.id
unfolding reset
reset-id contest s = refl

prepared :
    (job : Job) (t : Store) (old : Submission)
    → find_row job.request.id t.submissions ≡ some old
    → may_judge old ≡ true
    → IsPrepared job old (prepare job t)
unfolding prepare delete_cases
prepared job t old e q = record {
  row =
      find_row-updated job.request.id may_judge (reset job.contest) (reset-id job.contest)
        t.submissions e q;
  no_cases = cases_of-deleted job.request.id t.cases;
}

-- A submission that is in the table, and not being processed or graded, is queued by
-- `judge_submission` when the bridge answers: it returns true, the bridge knows the submission,
-- its row is reset and its test cases are gone.
pub judge_submission_queues :
    (world : World) (draw : ℕ → ℕ) (job : Job) (s : Site) (old : Submission)
    → IsSound s.judges
    → find_row job.request.id s.store.submissions ≡ some old
    → may_judge old ≡ true
    → let (t, success) = judge_submission up world draw job s in
      (success ≡ true)
      × (known job.request.id t.judges ≡ true)
      × (find_row job.request.id t.store.submissions ≡ some (reset job.contest old))
      × (cases_of job.request.id t.store.cases ≡ [])
unfolding judge_submission judge_request conclude
judge_submission_queues world draw job s old sound e q =
    let found =
      has_row-found job.request.id may_judge (reset job.contest) (reset-id job.contest)
        s.store.submissions e q in
    let (reply, k) = request_known world draw job s sound in
    let ready = prepared job s.store old e q in
    rw (found, judge_submission)
      (rw (reply) (rw (==_self job.request.id, conclude) (refl, k, ready.row, ready.no_cases)))

-- When the answer of the bridge is lost, `judge_submission` returns false and the row says that an
-- internal error ended the submission, while the bridge has it and will have it graded.
pub judge_submission_no_answer :
    (world : World) (draw : ℕ → ℕ) (job : Job) (s : Site) (old : Submission)
    → IsSound s.judges
    → find_row job.request.id s.store.submissions ≡ some old
    → may_judge old ≡ true
    → let (t, success) = judge_submission no_answer world draw job s in
      (success ≡ false)
      × (known job.request.id t.judges ≡ true)
      × (find_row job.request.id t.store.submissions
          ≡ some (set_internal_error (reset job.contest old)))
      × (cases_of job.request.id t.store.cases ≡ [])
unfolding judge_submission judge_request conclude update_submission
judge_submission_no_answer world draw job s old sound e q =
    let found =
      has_row-found job.request.id may_judge (reset job.contest) (reset-id job.contest)
        s.store.submissions e q in
    let (reply, k) = request_known world draw job s sound in
    let ready = prepared job s.store old e q in
    rw (found, judge_submission)
      (
        refl,
        k,
        find_row-updated job.request.id anyone set_internal_error (λ s. refl)
            (prepare job s.store).submissions ready.row refl,
        ready.no_cases,
      )

-- A packet that acknowledges another submission than the one that the judge works on shuts the
-- connection, but sets that other submission, if it is in the table, to be processed whatever it
-- was before; from then on `judge_submission` refuses it.
pub wrong_acknowledge-stuck :
    (σ : Session) (job : Job) (link : Link) (world : World) (draw : ℕ → ℕ)
    → (job.request.id == working σ) ≡ false
    → let τ = on_submission_acknowledged job.request.id σ in
      let s : Site = record { store = τ.store; judges = τ.judges } in
      (τ.closed ≡ true) × (judge_submission link world draw job s ≡ (s, false))
unfolding on_submission_acknowledged on_submission_processing update_submission judge_submission
    may_judge
wrong_acknowledge-stuck σ job link world draw wrong =
    let id = job.request.id in
    let process : Submission → Submission =
      λ row. record row { status = processing; judged_on = some σ.judge } in
    let rows = (on_submission_wrong_acknowledge (working σ) id σ.store).submissions in
    let none_left = has_row-none id anyone process (λ row. refl) may_judge rows (λ row. refl) in
    rw (wrong, on_submission_acknowledged) (refl, rw (none_left, judge_submission) refl)
