-- ===== src/Grading.antt =====
-- judge/bridge/judge_handler.py, `on_test_case` and `on_grading_end`: the verdict of a test case,
-- and how the cases of a submission add up to its result. Points and times are numbers of
-- thousandths, and what the program computes in floating point is computed exactly.
pub mod Rounding
pub mod Verdicts
pub mod Points
use Prim.Native.Nat.{bit_and}
use study_sys.Prelude.{
  ℕ, zero, suc, ◌+◌, ◌*◌, ◌/◌, ◌%◌, Bool, true, false, not, ◌&&◌, Option, none, some, List, [], ◌∷◌,
  ltb, leb, ◌==◌, if◌then◌else◌, min, max,
}
use study_sys.Prelude.Dict.{lookup, insert}
use study_sys.Grading.Rounding.{round_div, round_tenth}

-- `SUBMISSION_RESULT`
pub data Verdict : Type 0 where
  ac wa tle mle ole ir rte ce ie sc ab : Verdict

pub record TestCase : Type 0 where
  pub case : ℕ
  pub status : Verdict
  pub time : ℕ
  pub memory : ℕ
  pub points : ℕ
  pub total : ℕ
  pub batch : Option ℕ

-- `status & mask`, as a test
abbrev pub has_flag : ℕ → ℕ → Bool
has_flag status mask = not (bit_and status mask == 0)

-- The chain of tests in `on_test_case`.
unfoldable pub decode_status : ℕ → Verdict
decode_status status =
    if has_flag status 4
    then tle
    else if has_flag status 8
    then mle
    else if has_flag status 64
    then ole
    else if has_flag status 2
    then rte
    else if has_flag status 16
    then ir
    else if has_flag status 1
    then wa
    else if has_flag status 32
    then sc
    else ac

-- `status_codes.index(case.status)`; `none` is the ValueError.
unfoldable pub severity : Verdict → Option ℕ
severity sc = some 0
severity ac = some 1
severity wa = some 2
severity mle = some 3
severity tle = some 4
severity ir = some 5
severity rte = some 6
severity ole = some 7
severity _ = none

-- `status_codes[status]`
unfoldable pub status_code : ℕ → Verdict
status_code n =
    if n == 0
    then sc
    else if n == 1
    then ac
    else if n == 2
    then wa
    else if n == 3
    then mle
    else if n == 4
    then tle
    else if n == 5
    then ir
    else if n == 6
    then rte
    else ole

-- The local variables of `on_grading_end`. A batch has its least points and its largest total.
pub record Totals : Type 0 where
  pub time : ℕ
  pub memory : ℕ
  pub points : ℕ
  pub total : ℕ
  pub status : ℕ
  pub batches : List (ℕ × (ℕ × ℕ))

unfoldable pub no_totals : Totals
no_totals = record { time = 0; memory = 0; points = 0; total = 0; status = 0; batches = [] }

-- `not case.batch`: a missing number or 0
abbrev pub batch_number : Option ℕ → ℕ
batch_number none = 0
batch_number (some b) = b

unfoldable pub add_to_batch : ℕ → ℕ → ℕ → List (ℕ × (ℕ × ℕ)) → List (ℕ × (ℕ × ℕ))
add_to_batch b points total batches = elim (lookup b batches) [
  | none ↦ insert b (points, total) batches
  | some old ↦ insert b (min old.0 points, max old.1 total) batches
]

-- The points and the total of a case, added to the sums or to its batch.
unfoldable pub add_points : TestCase → Totals → Totals
add_points c t =
    let b = batch_number c.batch in
    if b == 0
    then record t { points = t.points + c.points; total = t.total + c.total }
    else record t { batches = add_to_batch b c.points c.total t.batches }

-- The body of the loop over the cases.
unfoldable pub add_case : TestCase → Totals → Option Totals
unfolding severity
add_case c t = elim (severity c.status) [
  | none ↦ none
  | some i ↦ some (record (add_points c t) {
    time = t.time + c.time;
    memory = max t.memory c.memory;
    status = if ltb t.status i then i else t.status;
  })
]

unfoldable pub add_cases : List TestCase → Totals → Option Totals
add_cases [] t = some t
add_cases (c ∷ cs) t = elim (add_case c t) [ none ↦ none | some u ↦ add_cases cs u ]

-- The loop over `batches`, for the points and for the totals.
unfoldable pub batch_points : List (ℕ × (ℕ × ℕ)) → ℕ
batch_points [] = 0
batch_points ((b, (points, total)) ∷ bs) = points + batch_points bs

unfoldable pub batch_totals : List (ℕ × (ℕ × ℕ)) → ℕ
batch_totals [] = 0
batch_totals ((b, (points, total)) ∷ bs) = total + batch_totals bs

-- What `on_grading_end` stores in the submission.
pub record Grade : Type 0 where
  pub time : ℕ
  pub memory : ℕ
  pub case_points : ℕ
  pub case_total : ℕ
  pub points : ℕ
  pub result : Verdict

-- `round(points / total * problem.points if total > 0 else 0, 3)`, and no part of the points where
-- the problem gives none.
unfoldable pub scale_points : Bool → ℕ → ℕ → ℕ → ℕ
scale_points partial worth points total =
    let scaled = if ltb 0 total then round_div (points * worth) total else 0 in
    if not partial && not (scaled == worth) then 0 else scaled

unfoldable pub grade_of : Bool → ℕ → Totals → Grade
unfolding status_code
grade_of partial worth t =
    let points = round_tenth (t.points + batch_points t.batches) in
    let total = round_tenth (t.total + batch_totals t.batches) in
    record {
      time = t.time;
      memory = t.memory;
      case_points = points;
      case_total = total;
      points = scale_points partial worth points total;
      result = status_code t.status;
    }

-- `on_grading_end` from its first loop to `submission.save()`; `none` is the ValueError of a status
-- that no test case gets.
unfoldable pub grade : Bool → ℕ → List TestCase → Option Grade
grade partial worth cases = elim (add_cases cases no_totals) [
  | none ↦ none
  | some t ↦ some (grade_of partial worth t)
]
