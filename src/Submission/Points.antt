-- ===== src/Submission/Points.antt =====
-- The points of a submission in its contest.
use study_sys.Prelude.{ℕ, ◌≡◌, ◌≤◌, Bool, true, some, List, all, leb, arith, Option-cases, inl, inr}
use study_sys.Grading.{TestCase, Grade, grade, grade_of, add_cases, no_totals}
use study_sys.Grading.Points.{grade_bounds, scale_points-le}
use study_sys.Submission.{contest_points}

-- When no test case has more points than it can have, a graded submission brings at most the points
-- of the contest's problem to the contest; and just its own points, if the contest's problem has
-- the points of the problem and is as partial.
pub contest_points-grade :
    (partial partial' : Bool) (worth worth' : ℕ) (cs : List TestCase) {g : Grade}
    → all (λ c. leb c.points c.total) cs ≡ true
    → grade partial worth cs ≡ some g
    → (contest_points partial' worth' g.case_points g.case_total ≤ worth')
      × (contest_points partial worth g.case_points g.case_total ≡ g.points)
unfolding contest_points grade grade_of
contest_points-grade partial partial' worth worth' cs {g} h e = (
  scale_points-le partial' worth' g.case_points g.case_total
      (grade_bounds partial worth cs {g = g} h e).0,
  elim (Option-cases (add_cases cs no_totals)) [
    | inl fails ↦ absurd (ground (arith, fails, e))
    | inr (t, sums) ↦ ground (arith, sums, e)
  ],
)
