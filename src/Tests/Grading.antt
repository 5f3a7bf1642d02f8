-- ===== src/Tests/Grading.antt =====
-- A submission with one case of its own and a batch of two.
use study_sys.Prelude.{
  ℕ, ◌≡◌, ◌≤◌, ◌↔◌, refl, true, false, Option, none, some, List, [], ◌∷◌, all, any,
}
use study_sys.Grading.{
  add_to_batch, batch_totals, batch_points, add_points, scale_points, no_totals, grade_of, add_case,
  add_cases, severity, Verdict, ac, wa, tle, TestCase, Grade, grade, decode_status,
}
use study_sys.Grading.Rounding.{round_tenth, round_div}
use study_sys.Grading.Verdicts.{has_passed, has_run, grade-ac}
use study_sys.Grading.Points.{grade_bounds}

abbrev case_of : Verdict → ℕ → Option ℕ → TestCase
case_of status points batch = record {
  case = 1;
  status = status;
  time = 250;
  memory = 4096;
  points = points;
  total = 10000;
  batch = batch;
}

abbrev mixed : List TestCase
mixed = case_of ac 10000 none ∷ case_of ac 10000 (some 1) ∷ case_of wa 0 (some 1) ∷ []

abbrev mixed_grade : Grade
mixed_grade = record {
  time = 750;
  memory = 4096;
  case_points = 10000;
  case_total = 20000;
  points = 2500;
  result = wa;
}

program : Unit {0}
unfolding grade add_cases add_case grade_of no_totals round_tenth scale_points round_div add_points
    batch_points batch_totals add_to_batch
program = tt

-- The batch counts for nothing, since one of its cases failed.
grade-mixed : grade true 5000 mixed ≡ some mixed_grade
unfolding program
grade-mixed = refl

grade_whole : grade false 5000 mixed ≡ some (record mixed_grade { points = 0 })
unfolding program
grade_whole = refl

decode_status_tle : decode_status 5 ≡ tle
unfolding decode_status
decode_status_tle = refl

grade-ac_example :
    (g : Grade) × (grade true 5000 mixed ≡ some g)
    × ((g.result ≡ ac) ↔ ((all has_passed mixed ≡ true) × (any has_run mixed ≡ true)))
unfolding severity
grade-ac_example = grade-ac true 5000 mixed refl

grade_bounds_example :
    (mixed_grade.case_points ≤ mixed_grade.case_total) × (mixed_grade.points ≤ 5000)
grade_bounds_example = grade_bounds true 5000 mixed refl grade-mixed
