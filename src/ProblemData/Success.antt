-- ===== src/ProblemData/Success.antt =====
-- When `make_init` succeeds.
use study_sys.Prelude.{◌≡◌, ◌∙◌, refl, ap, Bool, true, false, ◌&&◌, List, [], ◌∷◌, String, arith}
use study_sys.ProblemData.{
  generator_path, zip_path, ProblemDataError, ProblemTestCase, ProblemData, Result, ok, failed,
  value_error, ◌>>=◌, World, Draft, end_open, make_checker,
}
use study_sys.ProblemData.Compiler.{loop, make_init, finish, no_draft, rest_of_path}
use study_sys.ProblemData.Acceptance.{
  outside, place_of, is_there, has_checker, is_over, accepts, is_done, is_there-end_open,
  is_there-make_checker, loop-accepts,
}

-- A path is empty, or has a part after the first one.
abbrev pub is_path : List String → Bool
is_path (p ∷ []) = false
is_path _ = true

is_there-rest_of_path :
    (e : ProblemDataError) (path : List String) → is_there (rest_of_path e path) ≡ is_path path
unfolding rest_of_path
is_there-rest_of_path e [] = refl
is_there-rest_of_path e (p ∷ []) = refl
is_there-rest_of_path e (p ∷ (q ∷ qs)) = refl

is_there_bind :
    {A B : Type 0} (r : Result A) (f : A → Result B) (b : Bool)
    → ((x : A) → is_there (f x) ≡ b)
    → is_there (r >>= f) ≡ (is_there r && b)
is_there_bind (ok x) f b h = h x
is_there_bind (failed e) f b h = refl
is_there_bind value_error f b h = refl

-- The paths and the checker of the problem's data.
abbrev pub has_data : World → ProblemData → Bool
has_data w s = is_path s.zipfile && (is_path s.generator && has_checker w s.checker s.checker_args)

is_there-finish :
    (w : World) (s : ProblemData) (d : Draft)
    → is_there (finish w s d) ≡ (is_over (place_of d.open_batch) && has_data w s)
unfolding finish
is_there-finish w s d =
    is_there_bind (end_open d.open_batch d.cases) _ (has_data w s) (λ cases.
      is_there_bind (rest_of_path zip_path s.zipfile) _
        (is_path s.generator && has_checker w s.checker s.checker_args)
        (λ archive.
          is_there_bind (rest_of_path generator_path s.generator) _
            (has_checker w s.checker s.checker_args)
            (λ generator.
              is_there_bind (make_checker w s.checker s.checker_args) _ true (λ checker. refl)
              ∙ ground (arith, is_there-make_checker w s.checker s.checker_args))
          ∙ rw (is_there-rest_of_path generator_path s.generator) refl)
      ∙ rw (is_there-rest_of_path zip_path s.zipfile) refl)
    ∙ rw (is_there-end_open d.open_batch d.cases) refl

finish_done :
    (w : World) (s : ProblemData) (r : Result Draft)
    → is_there (r >>= finish w s) ≡ (is_done r && has_data w s)
finish_done w s (ok d) = is_there-finish w s d
finish_done w s (failed e) = refl
finish_done w s value_error = refl

-- `make_init` succeeds for just the rows that `accepts` reads from outside a batch, if the paths of
-- the problem's data have two parts and the arguments of its checker are JSON.
pub make_init-accepts :
    (w : World) (s : ProblemData) (rows : List ProblemTestCase)
    → is_there (make_init w s rows).0 ≡ (accepts w outside rows && has_data w s)
unfolding make_init
make_init-accepts w s rows =
    finish_done w s (loop w 1 rows no_draft).0
    ∙ ap (λ b. b && has_data w s) (loop-accepts w 1 rows no_draft)
