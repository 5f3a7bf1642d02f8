-- ===== src/Tests/Format.antt =====
-- A participation with a wrong submission, two right ones and one for a second problem.
use study_sys.Prelude.{ℕ, ◌≡◌, [], ◌∷◌, List, some, none, refl, arith, true}
use study_sys.Grading.{ac, wa, Verdict}
use study_sys.Format.{
  tries, prev, penalty_step, row_of, rows, best_row, ContestSubmission, pos, negsuc, update_default,
  update_legacy_ioi, update_atcoder, update_icpc,
}
use study_sys.Format.Scores.{total, format_scores}
use study_sys.Format.Late.{IsLate, penalty_formats_late}

abbrev sub : ℕ → ℕ → ℕ → Verdict → ContestSubmission
sub q points date v = record { problem = q; points = points; date = date; result = some v }

abbrev early : List ContestSubmission
early = sub 1 0 60 wa ∷ sub 1 100 120 ac ∷ sub 2 40 300 wa ∷ []

abbrev again : ContestSubmission
again = sub 1 100 500 ac

abbrev id : ℕ → ℕ
id n = n

icpc_early : (update_icpc id 20 (1 ∷ 2 ∷ []) early).cumtime ≡ pos 1620
unfolding update_icpc rows row_of penalty_step best_row prev tries
icpc_early = refl

-- A submission with points whose result is not there yet is not counted: `prev` is -1.
regrading : (update_icpc id 20 (1 ∷ []) (record again { result = none } ∷ [])).cumtime ≡ negsuc 699
unfolding update_icpc rows row_of penalty_step best_row prev tries
regrading = refl

format_scores_example :
    ((update_default id (1 ∷ 2 ∷ []) early).score ≡ total (1 ∷ 2 ∷ []) early)
    × ((update_legacy_ioi id true (1 ∷ 2 ∷ []) early).score ≡ total (1 ∷ 2 ∷ []) early)
    × ((update_atcoder id 5 (1 ∷ 2 ∷ []) early).score ≡ total (1 ∷ 2 ∷ []) early)
    × ((update_icpc id 5 (1 ∷ 2 ∷ []) early).score ≡ total (1 ∷ 2 ∷ []) early)
format_scores_example = format_scores id 5 true (1 ∷ 2 ∷ []) early

again-IsLate : IsLate 1 again early
unfolding best_row
again-IsLate = record { solved = omega arith; no_better = omega arith; later = omega arith }

penalty_formats_late_example :
    (update_icpc id 20 (1 ∷ 2 ∷ []) (again ∷ early) ≡ update_icpc id 20 (1 ∷ 2 ∷ []) early)
    × (update_atcoder id 20 (1 ∷ 2 ∷ []) (again ∷ early) ≡ update_atcoder id 20 (1 ∷ 2 ∷ []) early)
penalty_formats_late_example = penalty_formats_late id 20 (1 ∷ 2 ∷ []) again early again-IsLate
