-- ===== src/Submission.antt =====
-- judge/models/submission.py, `Submission`: who may see the detail of a submission, the classes of
-- results, and the points that a graded submission brings to its contest.
pub mod Points
use study_sys.Prelude.{
  ℕ, ◌*◌, ◌≡◌, ◌≤◌, Bool, true, false, not, ◌&&◌, ◌||◌, Option, none, some, elem, ltb, ◌==◌,
  if◌then◌else◌, arith, List,
}
use study_sys.Viewer.{Viewer, view_all_submission}
use study_sys.Problem.{Problem, is_editable_by}
use study_sys.Grading.{Verdict, ac, Grade, grade, scale_points}
use study_sys.Store.{Status}

-- `SubmissionSourceAccess`; the setting that follows the site's is resolved before.
pub data SourceAccess : Type 0 where
  always solved only_own : SourceAccess

-- What `can_see_detail` reads of the contest in which a submission was made.
pub record ContestAccess : Type 0 where
  pub editor_ids : List ℕ
  pub view_contest_submissions : List ℕ
  pub tester_see_submissions : Bool
  pub tester_ids : List ℕ

abbrev pub shows_to_tester : Viewer → Problem → SourceAccess → Bool
shows_to_tester user p only_own = elem user.id p.testers
shows_to_tester user p _ = false

abbrev pub shows_always : SourceAccess → Bool
shows_always always = true
shows_always _ = false

-- `is_solved` is the answer of `is_solved_by`.
abbrev pub shows_to_solver : Viewer → Problem → Bool → SourceAccess → Bool
shows_to_solver user p is_solved solved = (p.is_public || elem user.id p.testers) && is_solved
shows_to_solver user p is_solved _ = false

abbrev pub sees_in_contest : Viewer → Option ContestAccess → Bool
sees_in_contest user none = false
sees_in_contest user (some c) =
    elem user.id c.editor_ids
    || (elem user.id c.view_contest_submissions
        || (c.tester_see_submissions && elem user.id c.tester_ids))

unfoldable pub can_see_detail :
    Viewer → Problem → (owner : ℕ) → SourceAccess → (is_solved : Bool) → Option ContestAccess → Bool
unfolding is_editable_by
can_see_detail user p owner access is_solved contest =
    if not user.is_authenticated
    then false
    else if is_editable_by user p
    then true
    else if user.has_perm view_all_submission
    then true
    else if owner == user.id
    then true
    else if shows_always access
    then true
    else if shows_to_solver user p is_solved access
    then true
    else if shows_to_tester user p access
    then true
    else if sees_in_contest user contest
    then true
    else false

unfoldable pub is_locked : Option ℕ → ℕ → Bool
is_locked none now = false
is_locked (some locked_after) now = ltb locked_after now

unfoldable pub memory_bytes : Option ℕ → ℕ
memory_bytes none = 0
memory_bytes (some memory) = memory * 1024

-- What `result_class` gives; `partly` is '_AC'.
pub data ResultClass : Type 0 where
  internal_error compile_error no_result partly : ResultClass
  of_result : Verdict → ResultClass

unfoldable pub result_class_from_code : Option Verdict → ℕ → ℕ → ResultClass
result_class_from_code none case_points case_total = no_result
result_class_from_code (some ac) case_points case_total =
    if case_points == case_total then of_result ac else partly
result_class_from_code (some v) case_points case_total = of_result v

unfoldable pub result_class : Status → Option Verdict → ℕ → ℕ → ResultClass
unfolding result_class_from_code
result_class Status.internal_error r case_points case_total = internal_error
result_class Status.compile_error r case_points case_total = compile_error
result_class _ r case_points case_total = result_class_from_code r case_points case_total

-- The points that `update_contest` gives to the submission in the contest, whose problem has the
-- points `worth`.
unfoldable pub contest_points : Bool → ℕ → ℕ → ℕ → ℕ
unfolding scale_points
contest_points partial worth case_points case_total =
    scale_points partial worth case_points case_total
