-- ===== src/Problem/Submitting/Limit.antt =====
-- The limit of submissions of a contest problem, over the requests that submit.
use study_sys.Prelude.{
  ltb→lt, ap, ◌∙◌, if_split, ℕ, ◌+◌, ◌-◌, ◌≤◌, ◌<◌, Bool, true, false, Option, none, some, List, [],
  ◌∷◌, ◌≡◌, inl, inr, max, refl, arith, Bool-cases, ltb, ◌==◌, all, count,
}
use study_sys.Viewer.{Viewer}
use study_sys.Store.{
  has_row, Submission, Store, find_row, find_row-other, update_submission, anyone, delete_cases,
}
use study_sys.JudgeApi.{
  priority, judge_request, Site, Link, Job, judge, judge_submission, conclude, prepare, reset,
  may_judge, set_internal_error,
}
use study_sys.JudgeApi.Requests.{reset-id}
use study_sys.Bridge.DjangoHandler.{submission_request, Reply}
use study_sys.Bridge.JudgeList.{World}
use study_sys.Problem.Submitting.{
  remaining, ContestProblem, Current, Target, Tables, Attempt, contest_problem, status_is,
  is_counted, get_contest_submission_count, remaining_submission_count,
}
use study_sys.Problem.Submitting.View.{
  cleaned, new_job, Setting, Form, dispatch, refusal, save, add_row, new_row,
}
use study_sys.Problem.Submitting.Accepted.{contest_of, passed_refusal, dispatch_outcome, saved}

-- Ids of the table are below the next one.
unfoldable pub IsFresh : Tables → Type 0
IsFresh t = all (λ a. ltb a.id t.next_id) t.attempts ≡ true

prepare-other :
    (j : ℕ) (job : Job) (t : Store)
    → (job.request.id == j) ≡ false
    → find_row j (prepare job t).submissions ≡ find_row j t.submissions
unfolding prepare delete_cases
prepare-other j job t e =
    find_row-other job.request.id j may_judge (reset job.contest) t.submissions
      (reset-id job.contest) e

conclude-other :
    (id j : ℕ) (reply : Option Reply) (t : Store)
    → (id == j) ≡ false
    → find_row j (conclude id reply t).0.submissions ≡ find_row j t.submissions
unfolding conclude update_submission
conclude-other id j reply t e =
    let failed = find_row-other id j anyone set_internal_error t.submissions (λ s. refl) e in
    ground (arith, failed)

judge_submission-other :
    (link : Link) (world : World) (draw : ℕ → ℕ) (job : Job) (s : Site) (j : ℕ)
    → (job.request.id == j) ≡ false
    → find_row j (judge_submission link world draw job s).0.store.submissions
      ≡ find_row j s.store.submissions
unfolding judge_submission
judge_submission-other link world draw job s j e =
    let sent =
      judge_request link world draw (submission_request (priority job) job.request) s.judges in
    let ready = prepare-other j job s.store e in
    let row = conclude-other job.request.id j sent.1 (prepare job s.store) e in
    if_split
      (λ (r : Site × Bool). find_row j r.0.store.submissions ≡ find_row j s.store.submissions)
      (has_row job.request.id may_judge s.store.submissions) (λ _. row ∙ ready) (λ _. refl)

-- A count over attempts whose rows are the same.
count-same :
    (c : Current) (problem n : ℕ) (old new : List Submission) (xs : List Attempt)
    → ((j : ℕ) → (n == j) ≡ false → find_row j new ≡ find_row j old)
    → all (λ a. ltb a.id n) xs ≡ true
    → count (is_counted c problem new) xs ≡ count (is_counted c problem old) xs
unfolding status_is
count-same c problem n old new [] same fresh = refl
count-same c problem n old new (x ∷ xs) same fresh = ground (
  arith,
  fresh,
  same x.id (ground (arith, fresh)),
  count-same c problem n old new xs same (ground (arith, fresh)),
)

all-later :
    (n : ℕ) (xs : List Attempt)
    → all (λ a. ltb a.id n) xs ≡ true
    → all (λ a. ltb a.id (n + 1)) xs ≡ true
all-later n [] fresh = refl
all-later n (x ∷ xs) fresh = ground (arith, fresh, all-later n xs (ground (arith, fresh)))

module _ (e : Setting) (user : Viewer) (c : Current) (p : Target) (form : Form) (t : Tables) where
  saved-other :
      (j : ℕ)
      → (t.next_id == j) ≡ false
      → find_row j (saved e user (some c) p form t).site.store.submissions
        ≡ find_row j t.site.store.submissions
  unfolding save find_row judge
  saved-other j apart =
      judge_submission-other e.link e.world e.draw
        (new_job t.next_id p (cleaned e form) (contest_of e user (some c) p form t))
        (add_row (new_row t.next_id p) t.site) j apart
      ∙ rw (apart, find_row) refl

  saved_one_more :
      IsFresh t
      → get_contest_submission_count c p.problem.id (saved e user (some c) p form t)
        ≤ get_contest_submission_count c p.problem.id t + 1
  unfolding save get_contest_submission_count IsFresh
  saved_one_more fresh = ground (
    arith,
    count-same c p.problem.id t.next_id t.site.store.submissions
        (saved e user (some c) p form t).site.store.submissions t.attempts saved-other fresh,
  )

  some_left :
      (k : ContestProblem) (limit : ℕ)
      → contest_problem p.problem.id (some c) t.contest_problems ≡ some k
      → k.max_submissions ≡ some limit
      → refusal e.limit user (some c) p (cleaned e form) t ≡ none
      → get_contest_submission_count c p.problem.id t < limit
  unfolding remaining_submission_count
  some_left k limit found limited passed =
      let (_, left) = passed_refusal e user (some c) p form t passed in
      let eq : remaining_submission_count p.problem.id (some c) t
          ≡ some (limit - get_contest_submission_count c p.problem.id t) =
        rw (found, remaining_submission_count)
          (ap (λ m. remaining p.problem.id (some c) m t) limited) in
      elim (Bool-cases (ltb (get_contest_submission_count c p.problem.id t) limit)) [
        | inl lt ↦ ltb→lt _ _ lt
        | inr ge ↦ absurd (left (eq ∙ ap some (ground (arith, ge))))
      ]

-- A request by a user whose current contest has the problem with a limit, over a table whose ids are
-- below the next one, leaves such a table, in which the submissions of that participation to the
-- problem that count are at most the limit, or as many as before if those were more. A submission
-- counts unless an internal error ended it.
pub dispatch-limit :
    (e : Setting) (user : Viewer) (c : Current) (old : Option ℕ) (p : Target) (form : Form)
    (t : Tables) (k : ContestProblem) (limit : ℕ)
    → contest_problem p.problem.id (some c) t.contest_problems ≡ some k
    → k.max_submissions ≡ some limit
    → IsFresh t
    → let u = (dispatch e user (some c) old (some p) form t).0 in
      IsFresh u
      × (get_contest_submission_count c p.problem.id u
          ≤ max limit (get_contest_submission_count c p.problem.id t))
unfolding IsFresh save
dispatch-limit e user c old p form t k limit found limited fresh =
    elim (dispatch_outcome e user (some c) p form t old) [
      | inl (same, _) ↦ rw (same) (fresh, omega arith)
      | inr ((_, _, _, passed), eq) ↦ rw (eq) (
        ground (arith, all-later t.next_id t.attempts fresh),
        omega (
          arith,
          some_left e user c p form t k limit found limited passed,
          saved_one_more e user c p form t fresh,
        ),
      )
    ]
