-- ===== src/Problem/Submitting/Accepted.antt =====
-- What a submission has passed when the view answers that it is submitted, and what becomes of it.
use study_sys.Prelude.{
  ℕ, Bool, true, false, ◌||◌, not, Option, none, some, [], ◌≡◌, ◌≢◌, ◌⊎◌, inl, inr, refl, arith,
  Option-cases, Bool-cases, if_split, elem, elem_text, ==_self,
}
use study_sys.Viewer.{Viewer}
use study_sys.Problem.{is_accessible_by, is_editable_by}
use study_sys.Store.{find_row}
use study_sys.Bridge.Judge.{is_given}
use study_sys.Bridge.JudgeList.{known}
use study_sys.Bridge.JudgeList.Steps.{IsSound}
use study_sys.JudgeApi.{up, judge, reset, may_judge}
use study_sys.JudgeApi.Requests.{judge_submission_queues}
use study_sys.Problem.Submitting.{
  Submission, ContestSubmission, Current, Target, Tables, Response, submitted, contest_problem,
  remaining_submission_count,
}
use study_sys.Problem.Submitting.View.{
  cleaned, Setting, Form, usable_languages, judge_choices, is_valid, refusal, new_row, new_job,
  in_contest, save, form_valid, in_current, post, old_submission, dispatch, add_row,
}

abbrev pub is_submitted : Response → Bool
is_submitted (submitted n) = true
is_submitted _ = false

module _ (e : Setting) (user : Viewer) (current : Option Current) (p : Target) (form : Form)
    (t : Tables) where
  abbrev pub HasPassed : Type 0
  HasPassed =
      (user.is_authenticated ≡ true)
      × (is_accessible_by (in_current current p t) false user p.problem ≡ true)
      × (is_valid e user p form ≡ true)
      × (refusal e.limit user current p (cleaned e form) t ≡ none)

  abbrev pub saved : Tables
  saved =
      save e user p (cleaned e form)
        (in_contest current (contest_problem p.problem.id current t.contest_problems)) t

  refusal-is_submitted :
      {r : Response}
      → refusal e.limit user current p (cleaned e form) t ≡ some r
      → is_submitted r ≡ false
  unfolding refusal
  refusal-is_submitted {r} h = ground (arith, h)

  abbrev pub Outcome : Tables × Response → Type 0
  Outcome r =
      ((r.0 ≡ t) × (is_submitted r.1 ≡ false)) ⊎ (HasPassed × (r ≡ (saved, submitted t.next_id)))

  form_valid_outcome :
      user.is_authenticated ≡ true
      → is_accessible_by (in_current current p t) false user p.problem ≡ true
      → is_valid e user p form ≡ true
      → Outcome (form_valid e user current p (cleaned e form) t)
  unfolding form_valid
  form_valid_outcome signed_in accessible valid =
      elim (Option-cases (refusal e.limit user current p (cleaned e form) t)) [
        | inl h ↦ inr ((signed_in, accessible, valid, h), rw (h, form_valid) refl)
        | inr (r, h) ↦ inl (rw (h, form_valid) (refl, refusal-is_submitted h))
      ]

  post_outcome : user.is_authenticated ≡ true → Outcome (post e user current (some p) form t)
  unfolding post
  post_outcome signed_in =
      if_split Outcome (not (is_accessible_by (in_current current p t) false user p.problem))
        (λ h. inl (refl, refl))
        (λ h.
          if_split Outcome (not (is_valid e user p form)) (λ h2. inl (refl, refl))
            (λ h2. form_valid_outcome signed_in (ground (arith, h)) (ground (arith, h2))))

  old_submission-is_submitted :
      (old : Option ℕ) {r : Response} → old_submission user old t ≡ some r → is_submitted r ≡ false
  unfolding old_submission
  old_submission-is_submitted none {r} h = ground (arith, h)
  old_submission-is_submitted (some id) {r} h = ground (arith, h)

  pub dispatch_outcome : (old : Option ℕ) → Outcome (dispatch e user current old (some p) form t)
  unfolding dispatch
  dispatch_outcome old = elim (Option-cases (old_submission user old t)) [
    | inr (r, h) ↦ inl (rw (h, dispatch) (refl, old_submission-is_submitted old h))
    | inl h ↦
        rw (h, dispatch)
          (if_split Outcome (not user.is_authenticated) (λ out. inl (refl, refl))
            (λ signed_in. post_outcome (ground (arith, signed_in))))
  ]

  valid_language :
      is_valid e user p form ≡ true → elem_text form.language (usable_languages p) ≡ true
  unfolding is_valid
  valid_language h = ground (arith, h)

  no_judge_choices : is_editable_by user p.problem ≡ false → judge_choices user p ≡ []
  unfolding judge_choices
  no_judge_choices h = rw (h, judge_choices) refl

  valid_judge :
      is_valid e user p form ≡ true
      → (not (is_given form.judge) || is_editable_by user p.problem) ≡ true
  unfolding is_valid is_given
  valid_judge h = elim (Bool-cases (is_editable_by user p.problem)) [
    | inl editable ↦ ground (arith, editable)
    | inr plain ↦ ground (arith, h, plain, no_judge_choices plain)
  ]

  pub passed_refusal :
      refusal e.limit user current p (cleaned e form) t ≡ none
      → ((user.is_superuser || not (elem user.id p.banned_users)) ≡ true)
        × (remaining_submission_count p.problem.id current t ≢ some 0)
  unfolding refusal
  passed_refusal h = (ground (arith, h), λ z. ground (arith, h, z))

  abbrev pub contest_of : Option ContestSubmission
  contest_of = in_contest current (contest_problem p.problem.id current t.contest_problems)

  -- The row that waits for a judge.
  abbrev pub queued_row : Submission
  queued_row = reset (new_job t.next_id p form contest_of).contest (new_row t.next_id p)

  row_added :
      find_row t.next_id (add_row (new_row t.next_id p) t.site).store.submissions
      ≡ some (new_row t.next_id p)
  unfolding find_row
  row_added = rw (==_self t.next_id, find_row) refl

  saved_queues :
      IsSound t.site.judges
      → e.link ≡ up
      → (known t.next_id saved.site.judges ≡ true)
        × (find_row t.next_id saved.site.store.submissions ≡ some queued_row)
  unfolding save judge may_judge
  saved_queues sound linked =
      let (_, k, row, _) =
        judge_submission_queues e.world e.draw (new_job t.next_id p (cleaned e form) contest_of)
          (add_row (new_row t.next_id p) t.site) (new_row t.next_id p) sound row_added refl in
      rw (linked) (k, row)

  -- What an answer that the submission is submitted says of the request: a user who is signed in and
  -- may see the problem, a language that an online judge of the problem has and the problem allows,
  -- no ban but on a superuser, submissions left in the contest, and a judge named only by an editor.
  pub submitted_passed :
      (old : Option ℕ)
      → is_submitted (dispatch e user current old (some p) form t).1 ≡ true
      → (user.is_authenticated ≡ true)
        × (is_accessible_by (in_current current p t) false user p.problem ≡ true)
        × (elem_text form.language (usable_languages p) ≡ true)
        × ((user.is_superuser || not (elem user.id p.banned_users)) ≡ true)
        × (remaining_submission_count p.problem.id current t ≢ some 0)
        × ((not (is_given form.judge) || is_editable_by user p.problem) ≡ true)
  submitted_passed old done = elim (dispatch_outcome old) [
    | inl (_, refused) ↦ absurd (ground (arith, done, refused))
    | inr ((signed_in, accessible, valid, passed), _) ↦
        let (unbanned, left) = passed_refusal passed in
        (signed_in, accessible, valid_language valid, unbanned, left, valid_judge valid)
  ]

  -- With a sound list of judges and a bridge that answers, the answer that the submission is
  -- submitted tells the id that was next; the bridge knows the submission, and its row waits.
  -- Any other answer leaves the tables and the bridge as they were.
  pub dispatch_queues :
      (old : Option ℕ)
      → IsSound t.site.judges
      → e.link ≡ up
      → let (u, response) = dispatch e user current old (some p) form t in
        ((response ≡ submitted t.next_id)
          × (known t.next_id u.site.judges ≡ true)
          × (find_row t.next_id u.site.store.submissions ≡ some queued_row))
        ⊎ ((is_submitted response ≡ false) × (u ≡ t))
  dispatch_queues old sound linked = elim (dispatch_outcome old) [
    | inl (same, refused) ↦ inr (refused, same)
    | inr (_, eq) ↦ let (k, row) = saved_queues sound linked in inl (rw (eq) (refl, k, row))
  ]
