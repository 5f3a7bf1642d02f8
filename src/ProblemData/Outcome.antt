-- ===== src/ProblemData/Outcome.antt =====
-- What `compile` writes.
use study_sys.Prelude.{
  false, if◌then◌else◌, ℕ, ◌+◌, ◌≡◌, Bool, true, not, Option, none, some, String, all, ◌⊎◌,
}
use study_sys.ProblemData.{
  ProblemDataError, kept_args, ProblemData, Result, ok, failed, value_error, Init, World,
}
use study_sys.ProblemData.Compiler.{Compiled, is_pretest, is_empty}
use study_sys.ProblemData.Shape.{is_valid, total}

-- An init.yml with valid entries, in which pretests stand apart, and `n` cases read an input that
-- satisfies `q`.
pub record IsInit (w : World) (q : Option String → Bool) (n : ℕ) (t : Init) : Type 0 where
  pub valid_pretests : all (is_valid w) t.pretest_test_cases ≡ true
  pub valid_tests : all (is_valid w) t.test_cases ≡ true
  pub pretests : all is_pretest t.pretest_test_cases ≡ true
  pub tests : all (λ e. not (is_pretest e)) t.test_cases ≡ true
  pub counted : total q t.pretest_test_cases + total q t.test_cases ≡ n

-- How `compile` ends, from `r`, what `make_init` gives: an init.yml for which `P` holds, an error of
-- the problem's data, or an exception of json.loads; `b` says that the data are right.
pub Ends : (Init → Type 0) → Bool → ProblemData → Result Init → (c t : Compiled) → Type 0
Ends P b s r c t =
    ((init : Init) × (b ≡ true)
      × (r ≡ ok init)
      × P init
      × (t.feedback ≡ none)
      × (t.checker_args ≡ kept_args s.checker s.checker_args)
      × (t.yml ≡ (if is_empty init then none else some init)))
    ⊎ ((e : ProblemDataError) × (b ≡ false)
        × (r ≡ failed e)
        × (t ≡ record c { feedback = some e; yml = none }))
    ⊎ ((b ≡ false) × (r ≡ value_error) × (t ≡ c))
