-- ===== src/Tests/ProblemData.antt =====
-- A pretest, and a batch of two cases.
use study_sys.Prelude.{
  ◌≡◌, refl, Bool, true, false, Option, none, some, List, [], ◌∷◌, ℕ, String, str_eq, ◌&&◌,
}
use study_sys.ProblemData.{CaseType, ProblemTestCase, ProblemData, normal, batch_start, batch_end}
use study_sys.ProblemData.Compiler.{make_init, Compiled, world_of}
use study_sys.ProblemData.Steps.{weight, weigh}
use study_sys.ProblemData.Acceptance.{
  has_checker, has_files, next_place, is_there, accepts, outside,
}
use study_sys.ProblemData.Success.{has_data, make_init-accepts}

abbrev row : CaseType → Option ℕ → String → ProblemTestCase
row type points file = record {
  type = type;
  points = points;
  is_pretest = false;
  input_file = file;
  output_file = file;
  generator_args = [];
  output_limit = none;
  output_prefix = none;
  checker = "";
  checker_args = "";
}

abbrev rows : List ProblemTestCase
rows =
    record (row normal (some 5) "a") { is_pretest = true }
    ∷ row batch_start (some 10) ""
    ∷ row normal none "a"
    ∷ row normal none "b"
    ∷ row batch_end none ""
    ∷ []

abbrev problem_data : ProblemData
problem_data = record {
  zipfile = "aplusb" ∷ "data.zip" ∷ [];
  generator = [];
  output_limit = none;
  output_prefix = none;
  unicode = false;
  nobigmath = true;
  checker = "";
  checker_args = "";
}

abbrev no_json : String → Option String
no_json s = none

abbrev files : List String
files = "a" ∷ "b" ∷ []

abbrev before : Compiled
before = record { feedback = none; checker_args = ""; yml = none }

abbrev reads_a : Option String → Bool
reads_a none = false
reads_a (some f) = str_eq f "a"

make_init-accepts_example :
    is_there (make_init (world_of no_json problem_data files) problem_data rows).0 ≡ (
      accepts (world_of no_json problem_data files) outside rows
      && has_data (world_of no_json problem_data files) problem_data)
make_init-accepts_example =
    make_init-accepts (world_of no_json problem_data files) problem_data rows

rows_accepted : accepts (world_of no_json problem_data files) outside rows ≡ true
unfolding accepts next_place has_files has_checker
rows_accepted = refl

two_read_a : weigh reads_a rows ≡ 2
unfolding weigh weight
two_read_a = refl
