-- ===== src/ProblemData.antt =====
-- judge/utils/problem_data.py, `ProblemDataCompiler`: how the rows of test cases of a problem
-- (judge/models/problem_data.py) become its init.yml. A path is the list of its parts, arguments of
-- a generator are lists of lines, and json.loads is an argument.
pub mod Compiler
pub mod Shape
pub mod Steps
pub mod Outcome
pub mod Acceptance
pub mod Success
use study_sys.Prelude.{
  ℕ, ◌+◌, Bool, true, false, not, ◌&&◌, Option, none, some, List, [], ◌∷◌, ◌++◌, String, str_eq,
  if◌then◌else◌, any, keep,
}

pub data CaseType : Type 0 where
  normal batch_start batch_end : CaseType

-- A row of `ProblemTestCase`.
pub record ProblemTestCase : Type 0 where
  pub type : CaseType
  pub points : Option ℕ
  pub is_pretest : Bool
  pub input_file : String
  pub output_file : String
  pub generator_args : List String
  pub output_limit : Option ℕ
  pub output_prefix : Option ℕ
  pub checker : String
  pub checker_args : String

-- The fields of `ProblemData` that the compiler reads; an empty path is no file.
pub record ProblemData : Type 0 where
  pub zipfile : List String
  pub generator : List String
  pub output_limit : Option ℕ
  pub output_prefix : Option ℕ
  pub unicode : Bool
  pub nobigmath : Bool
  pub checker : String
  pub checker_args : String

-- The messages of `ProblemDataError`.
pub data ProblemDataError : Type 0 where
  empty_batch zip_path generator_path : ProblemDataError
  points_needed no_input no_output batch_points_needed end_outside : ℕ → ProblemDataError

-- `value_error` is the exception of json.loads.
pub data Result (A : Type 0) : Type 0 where
  ok : A → Result A
  failed : ProblemDataError → Result A
  value_error : Result A

infixl 5 ◌>>=◌
abbrev pub ◌>>=◌ : {A B : Type 0} → Result A → (A → Result B) → Result B
ok a >>= f = f a
failed e >>= f = failed e
value_error >>= f = value_error

pub data Checker : Type 0 where
  plain : String → Checker
  with_args : String → String → Checker

-- What init.yml says of a test case, and of a batch; `Entry` is an element of `cases`.
pub record CaseData : Type 0 where
  pub input : Option String
  pub output : Option String
  pub points : Option ℕ
  pub generator_args : List String
  pub output_limit_length : Option ℕ
  pub output_prefix_length : Option ℕ
  pub checker : Option Checker

pub record Batch : Type 0 where
  pub points : ℕ
  pub batched : List CaseData
  pub is_pretest : Bool
  pub generator_args : List String
  pub output_limit_length : Option ℕ
  pub output_prefix_length : Option ℕ
  pub checker : Option Checker

pub data Entry : Type 0 where
  single : (is_pretest : Bool) → CaseData → Entry
  batch : Batch → Entry

pub record Init : Type 0 where
  pub archive : Option (List String)
  pub generator : Option (List String)
  pub pretest_test_cases : List Entry
  pub test_cases : List Entry
  pub output_limit_length : Option ℕ
  pub output_prefix_length : Option ℕ
  pub checker : Option Checker
  pub hints : List String

-- The compiler's arguments: json.loads, which may fail, whether there is a generator, and the files.
pub record World : Type 0 where
  pub loads : String → Option String
  pub has_generator : Bool
  pub files : List String

-- The variables of `make_init`, and the rows that it has saved.
pub record Draft : Type 0 where
  pub cases : List Entry
  pub open_batch : Option Batch
  pub saved : List ProblemTestCase

abbrev pub some_text : String → Option String
some_text s = if str_eq s "" then none else some s

abbrev pub has_file : String → List String → Bool
has_file s files = any (str_eq s) files

-- `make_checker`, if there is a checker
unfoldable pub make_checker : World → String → String → Result (Option Checker)
make_checker w checker args =
    if str_eq checker ""
    then ok none
    else if str_eq args ""
    then ok (some (plain checker))
    else (elim (w.loads args) [ none ↦ value_error | some a ↦ ok (some (with_args checker a)) ])

abbrev pub kept_args : String → String → String
kept_args checker args = if str_eq checker "" then "" else args

-- `end_batch`, for the batch that is open
unfoldable pub close_batch : Batch → List Entry → Result (List Entry)
close_batch b cases = elim b.batched [
  | [] ↦ failed empty_batch
  | _ ∷ _ ↦ ok (cases ++ (batch b ∷ []))
]

unfoldable pub end_open : Option Batch → List Entry → Result (List Entry)
unfolding close_batch
end_open none cases = ok cases
end_open (some b) cases = close_batch b cases

unfoldable pub case_points : ℕ → Option ℕ → Option Batch → Result (Option ℕ)
case_points i points (some b) = ok none
case_points i none none = failed (points_needed i)
case_points i (some k) none = ok (some k)

unfoldable pub check_files : World → ℕ → ProblemTestCase → Result (Unit {0})
check_files w i r =
    if w.has_generator
    then ok tt
    else if not (has_file r.input_file w.files)
    then failed (no_input i)
    else if not (has_file r.output_file w.files)
    then failed (no_output i)
    else ok tt

unfoldable pub case_data : ProblemTestCase → Option ℕ → Option Checker → CaseData
case_data r points checker = record {
  input = some_text r.input_file;
  output = some_text r.output_file;
  points = points;
  generator_args = r.generator_args;
  output_limit_length = r.output_limit;
  output_prefix_length = r.output_prefix;
  checker = checker;
}

abbrev pub pretest_of : ProblemTestCase → Option Batch → Bool
pretest_of r none = r.is_pretest
pretest_of r (some b) = b.is_pretest

-- The end of the branch of a normal case.
unfoldable pub place : ProblemTestCase → CaseData → Option Batch → Draft → Draft
place r c none d = record d { cases = d.cases ++ (single r.is_pretest c ∷ []) }
place r c (some b) d = record d { open_batch = some (record b { batched = b.batched ++ (c ∷ []) }) }

abbrev pub save : ProblemTestCase → Draft → Draft
save r d = record d { saved = d.saved ++ (r ∷ []) }

unfoldable pub add_case : World → ℕ → ProblemTestCase → Draft → Result Draft
unfolding place case_data check_files
add_case w i r d = do
  points ← case_points i r.points d.open_batch
  _ ← check_files w i r
  checker ← make_checker w r.checker r.checker_args
  ok (
      save
        (record r {
          checker_args = kept_args r.checker r.checker_args;
          is_pretest = pretest_of r d.open_batch;
        })
        (place r (case_data r points checker) d.open_batch d))

unfoldable pub batch_points : ℕ → Option ℕ → Result ℕ
batch_points i none = failed (batch_points_needed i)
batch_points i (some k) = ok k

unfoldable pub start_batch : World → ℕ → ProblemTestCase → Draft → Result Draft
unfolding end_open
start_batch w i r d = do
  cases ← end_open d.open_batch d.cases
  points ← batch_points i r.points
  checker ← make_checker w r.checker r.checker_args
  ok (
      save
        (record r {
          checker_args = kept_args r.checker r.checker_args;
          input_file = "";
          output_file = "";
        })
        (record d {
          cases = cases;
          open_batch = some record {
            points = points;
            batched = [];
            is_pretest = r.is_pretest;
            generator_args = r.generator_args;
            output_limit_length = r.output_limit;
            output_prefix_length = r.output_prefix;
            checker = checker;
          };
        }))

-- The row of the end of a batch, which is saved before `end_batch` may fail.
abbrev pub end_row : Batch → ProblemTestCase → ProblemTestCase
end_row b r = record r {
  is_pretest = b.is_pretest;
  input_file = "";
  output_file = "";
  generator_args = [];
  checker = "";
  checker_args = "";
}

unfoldable pub end_batch : ℕ → ProblemTestCase → Option Batch → Draft → Result Draft
unfolding close_batch
end_batch i r none d = failed (end_outside i)
end_batch i r (some b) d = do
  cases ← close_batch b d.cases
  ok (save (end_row b r) (record d { cases = cases; open_batch = none }))

-- The rows that are saved when the step for a row fails.
abbrev pub saved_on_failure :
    CaseType → ProblemTestCase → Option Batch → Draft → List ProblemTestCase
saved_on_failure batch_end r (some b) d = (save (end_row b r) d).saved
saved_on_failure type r o d = d.saved

unfoldable pub step : World → ℕ → CaseType → ProblemTestCase → Draft → Result Draft
unfolding add_case start_batch end_batch
step w i normal r d = add_case w i r d
step w i batch_start r d = start_batch w i r d
step w i batch_end r d = end_batch i r d.open_batch d
