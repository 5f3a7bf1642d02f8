-- ===== src/ProblemData/Compiler.antt =====
-- judge/utils/problem_data.py, `make_init` and `compile`.
use study_sys.Prelude.{
  ℕ, ◌+◌, Bool, true, false, not, ◌&&◌, Option, none, some, List, [], ◌∷◌, ◌++◌, String,
  if◌then◌else◌, keep,
}
use study_sys.ProblemData.{
  saved_on_failure, ProblemTestCase, ProblemData, ProblemDataError, zip_path, generator_path,
  Result, ok, failed, value_error, ◌>>=◌, Entry, single, batch, Init, World, Draft, make_checker,
  end_open, step, kept_args,
}

-- The loop over `enumerate(self.cases, 1)`, and the rows that it has saved, also when it fails.
unfoldable pub loop : World → ℕ → List ProblemTestCase → Draft → Result Draft × List ProblemTestCase
loop w i [] d = (ok d, d.saved)
loop w i (r ∷ rs) d = elim (step w i r.type r d) [
  | ok d' ↦ loop w (i + 1) rs d'
  | failed e ↦ (failed e, saved_on_failure r.type r d.open_batch d)
  | value_error ↦ (value_error, saved_on_failure r.type r d.open_batch d)
]

-- The part after the first one, of a path of more than one part.
unfoldable pub rest_of_path : ProblemDataError → List String → Result (Option (List String))
rest_of_path e [] = ok none
rest_of_path e (p ∷ []) = failed e
rest_of_path e (p ∷ (q ∷ qs)) = ok (some (q ∷ qs))

abbrev pub is_pretest : Entry → Bool
is_pretest (single b c) = b
is_pretest (batch b) = b.is_pretest

abbrev pub hint : Bool → String → List String
hint b s = if b then s ∷ [] else []

unfoldable pub finish : World → ProblemData → Draft → Result Init
unfolding end_open rest_of_path make_checker
finish w data_row d = do
  cases ← end_open d.open_batch d.cases
  archive ← rest_of_path zip_path data_row.zipfile
  generator ← rest_of_path generator_path data_row.generator
  checker ← make_checker w data_row.checker data_row.checker_args
  ok record {
    archive = archive;
    generator = generator;
    pretest_test_cases = keep is_pretest cases;
    test_cases = keep (λ c. not (is_pretest c)) cases;
    output_limit_length = data_row.output_limit;
    output_prefix_length = data_row.output_prefix;
    checker = checker;
    hints = hint data_row.unicode "unicode" ++ hint data_row.nobigmath "nobigmath";
  }

abbrev pub no_draft : Draft
no_draft = record { cases = []; open_batch = none; saved = [] }

abbrev pub has_generator : List String → Bool
has_generator [] = false
has_generator (p ∷ ps) = true

abbrev pub world_of : (String → Option String) → ProblemData → List String → World
world_of loads data_row files = record {
  loads = loads;
  has_generator = has_generator data_row.generator;
  files = files;
}

unfoldable pub make_init :
    World → ProblemData → List ProblemTestCase → Result Init × List ProblemTestCase
unfolding loop finish
make_init w data_row rows =
    let (d, saved) = loop w 1 rows no_draft in (d >>= finish w data_row, saved)

abbrev pub is_none : {A : Type 0} → Option A → Bool
is_none none = true
is_none (some a) = false

abbrev pub is_nil : {A : Type 0} → List A → Bool
is_nil [] = true
is_nil (x ∷ xs) = false

-- `not init`
unfoldable pub is_empty : Init → Bool
is_empty t =
    is_none t.archive
    && is_none t.generator
    && is_nil t.pretest_test_cases
    && is_nil t.test_cases
    && is_none t.output_limit_length
    && is_none t.output_prefix_length
    && is_none t.checker
    && is_nil t.hints

-- What `compile` leaves: the feedback in the row of the data, none for '', the arguments of its
-- checker, and the file init.yml.
pub record Compiled : Type 0 where
  pub feedback : Option ProblemDataError
  pub checker_args : String
  pub yml : Option Init

-- What `compile` writes; nothing when an exception of json.loads leaves it.
unfoldable pub write : ProblemData → Result Init → Compiled → Compiled
unfolding is_empty
write data_row (ok init) c = record {
  feedback = none;
  checker_args = kept_args data_row.checker data_row.checker_args;
  yml = if is_empty init then none else some init;
}
write data_row (failed e) c = record c { feedback = some e; yml = none }
write data_row value_error c = c

unfoldable pub compile :
    (String → Option String)
    → ProblemData
    → List String
    → List ProblemTestCase
    → Compiled
    → Compiled
unfolding make_init write
compile loads data_row files rows c =
    write data_row (make_init (world_of loads data_row files) data_row rows).0 c
