-- ===== src/ProblemData/Acceptance.antt =====
-- For which rows of test cases `make_init` succeeds.
use study_sys.Prelude.{
  ℕ, ◌+◌, ◌≡◌, ◌∙◌, refl, sym, ap, Bool, true, false, not, ◌&&◌, ◌||◌, Option, none, some, List, [],
  ◌∷◌, ◌++◌, String, if◌then◌else◌, arith, str_eq,
}
use study_sys.ProblemData.{
  saved_on_failure, saved_on_failure, saved_on_failure, saved_on_failure, saved_on_failure,
  saved_on_failure, ProblemTestCase, CaseType, normal, batch_start, batch_end, Result, ok, failed,
  value_error, ◌>>=◌, Batch, Entry, World, Draft, has_file, end_open, close_batch, case_points,
  check_files, case_data, place, batch_points, add_case, start_batch, end_batch, step, make_checker,
}
use study_sys.ProblemData.Compiler.{loop, is_none, is_nil}

-- Where the rows stand: outside a batch, at the start of one, or after a case of one.
pub data Place : Type 0 where
  outside at_start inside : Place

abbrev pub place_of : Option Batch → Place
place_of none = outside
place_of (some b) = if is_nil b.batched then at_start else inside

abbrev pub is_there : {A : Type 0} → Result A → Bool
is_there (ok a) = true
is_there _ = false

-- The checker has no arguments, or arguments that are JSON.
unfoldable pub has_checker : World → String → String → Bool
has_checker w checker args = str_eq checker "" || (str_eq args "" || not (is_none (w.loads args)))

unfoldable pub has_files : World → ProblemTestCase → Bool
has_files w r = w.has_generator || (has_file r.input_file w.files && has_file r.output_file w.files)

-- A batch may end here, and so may the rows.
abbrev pub is_over : Place → Bool
is_over at_start = false
is_over _ = true

-- The place after a row, if the row is right where it stands: a case outside a batch has points, and
-- the files of a case are there; a batch has points, and does not end without a case.
unfoldable pub next_place : World → Place → CaseType → ProblemTestCase → Option Place
unfolding has_checker has_files
next_place w outside normal r =
    if not (is_none r.points) && (has_files w r && has_checker w r.checker r.checker_args)
    then some outside
    else none
next_place w p normal r =
    if has_files w r && has_checker w r.checker r.checker_args then some inside else none
next_place w p batch_start r =
    if is_over p && (not (is_none r.points) && has_checker w r.checker r.checker_args)
    then some at_start
    else none
next_place w inside batch_end r = some outside
next_place w p batch_end r = none

-- The rows are right, read from a place on.
unfoldable pub accepts : World → Place → List ProblemTestCase → Bool
unfolding next_place
accepts w p [] = is_over p
accepts w p (r ∷ rs) = elim (next_place w p r.type r) [ none ↦ false | some p' ↦ accepts w p' rs ]

pub is_there-make_checker :
    (w : World) (checker args : String)
    → is_there (make_checker w checker args) ≡ has_checker w checker args
unfolding make_checker has_checker
is_there-make_checker w checker args = ground arith

is_there-check_files :
    (w : World) (i : ℕ) (r : ProblemTestCase) → is_there (check_files w i r) ≡ has_files w r
unfolding check_files has_files
is_there-check_files w i r = ground arith

pub is_there-end_open :
    (o : Option Batch) (es : List Entry) → is_there (end_open o es) ≡ is_over (place_of o)
unfolding end_open close_batch
is_there-end_open none es = refl
is_there-end_open (some b) es = ground arith

-- The place after a step.
abbrev place_after : Result Draft → Option Place
place_after (ok d) = some (place_of d.open_batch)
place_after _ = none

after_three :
    {A B C : Type 0} (a : Result A) (b : Result B) (c : Result C) (k : A → B → C → Draft)
    (p : Place)
    → ((x : A) (y : B) (z : C) → place_of (k x y z).open_batch ≡ p)
    → place_after (a >>= λ x. b >>= λ y. c >>= λ z. ok (k x y z))
      ≡ (if is_there a && (is_there b && is_there c) then some p else none)
after_three (ok x) (ok y) (ok z) k p h = ap some (h x y z)
after_three (ok x) (ok y) (failed e) k p h = refl
after_three (ok x) (ok y) value_error k p h = refl
after_three (ok x) (failed e) c k p h = refl
after_three (ok x) value_error c k p h = refl
after_three (failed e) b c k p h = refl
after_three value_error b c k p h = refl

is_there-case_points :
    (i : ℕ) (points : Option ℕ) → is_there (case_points i points none) ≡ not (is_none points)
unfolding case_points
is_there-case_points i none = refl
is_there-case_points i (some k) = refl

is_there_inside :
    (i : ℕ) (points : Option ℕ) (b : Batch) → is_there (case_points i points (some b)) ≡ true
unfolding case_points
is_there_inside i points b = refl

is_there-batch_points :
    (i : ℕ) (points : Option ℕ) → is_there (batch_points i points) ≡ not (is_none points)
unfolding batch_points
is_there-batch_points i none = refl
is_there-batch_points i (some k) = refl

not_nil : {A : Type 0} (xs : List A) (x : A) → is_nil (xs ++ (x ∷ [])) ≡ false
not_nil [] x = refl
not_nil (y ∷ ys) x = refl

after_case :
    (w : World) (i : ℕ) (r : ProblemTestCase) (p : Place) (b : Batch)
    → place_of (some b) ≡ p
    → next_place w p normal r
      ≡ (if has_files w r && has_checker w r.checker r.checker_args then some inside else none)
unfolding next_place
after_case w i r outside b e = ground (arith, e)
after_case w i r at_start b e = refl
after_case w i r inside b e = refl

add_case-place :
    (w : World) (i : ℕ) (r : ProblemTestCase) (cases : List Entry) (o : Option Batch)
    (saved : List ProblemTestCase)
    → place_after (add_case w i r record { cases = cases; open_batch = o; saved = saved })
      ≡ next_place w (place_of o) normal r
unfolding add_case next_place place
add_case-place w i r cases none saved =
    after_three (case_points i r.points none) (check_files w i r)
      (make_checker w r.checker r.checker_args) _ outside (λ x y z. refl)
    ∙ rw
        (
          is_there-case_points i r.points,
          is_there-check_files w i r,
          is_there-make_checker w r.checker r.checker_args,
        )
        refl
add_case-place w i r cases (some b) saved =
    after_three (case_points i r.points (some b)) (check_files w i r)
      (make_checker w r.checker r.checker_args) _ inside
      (λ x y z. rw (not_nil b.batched (case_data r x z)) refl)
    ∙ rw
        (
          is_there_inside i r.points b,
          is_there-check_files w i r,
          is_there-make_checker w r.checker r.checker_args,
        )
        (sym (after_case w i r (place_of (some b)) b refl))

start_batch-place :
    (w : World) (i : ℕ) (r : ProblemTestCase) (d : Draft)
    → place_after (start_batch w i r d) ≡ next_place w (place_of d.open_batch) batch_start r
unfolding start_batch next_place
start_batch-place w i r d =
    after_three (end_open d.open_batch d.cases) (batch_points i r.points)
      (make_checker w r.checker r.checker_args) _ at_start (λ x y z. refl)
    ∙ rw
        (
          is_there-end_open d.open_batch d.cases,
          is_there-batch_points i r.points,
          is_there-make_checker w r.checker r.checker_args,
        )
        refl

end_batch-place :
    (w : World) (i : ℕ) (r : ProblemTestCase) (o : Option Batch) (d : Draft)
    → place_after (end_batch i r o d) ≡ next_place w (place_of o) batch_end r
unfolding end_batch next_place close_batch
end_batch-place w i r none d = refl
end_batch-place w i r (some b) d = ground arith

step-place :
    (w : World) (i : ℕ) (type : CaseType) (r : ProblemTestCase) (d : Draft)
    → place_after (step w i type r d) ≡ next_place w (place_of d.open_batch) type r
unfolding step
step-place w i normal r d = add_case-place w i r d.cases d.open_batch d.saved
step-place w i batch_start r d = start_batch-place w i r d
step-place w i batch_end r d = end_batch-place w i r d.open_batch d

abbrev pub is_done : Result Draft → Bool
is_done (ok d) = is_over (place_of d.open_batch)
is_done _ = false

loop_done :
    (w : World) (i : ℕ) (rs saved : List ProblemTestCase) (o : Result Draft) (p : Option Place)
    → place_after o ≡ p
    → ((d' : Draft) → is_done (loop w i rs d').0 ≡ accepts w (place_of d'.open_batch) rs)
    → is_done
        (elim o as (λ x. Result Draft × List ProblemTestCase) [
          | ok d' ↦ loop w i rs d'
          | failed e ↦ (failed e, saved)
          | value_error ↦ (value_error, saved)
        ]).0
      ≡ (elim p as (λ x. Bool) [ none ↦ false | some p' ↦ accepts w p' rs ])
loop_done w i rs saved (ok d') p e h =
    h d' ∙ ap (λ x. elim x as (λ y. Bool) [ none ↦ false | some p' ↦ accepts w p' rs ]) e
loop_done w i rs saved (failed x) p e h =
    ap (λ x. elim x as (λ y. Bool) [ none ↦ false | some p' ↦ accepts w p' rs ]) e
loop_done w i rs saved value_error p e h =
    ap (λ x. elim x as (λ y. Bool) [ none ↦ false | some p' ↦ accepts w p' rs ]) e

pub loop-accepts :
    (w : World) (i : ℕ) (rs : List ProblemTestCase) (d : Draft)
    → is_done (loop w i rs d).0 ≡ accepts w (place_of d.open_batch) rs
unfolding loop accepts
loop-accepts w i [] d = refl
loop-accepts w i (r ∷ rs) d =
    loop_done w (i + 1) rs (saved_on_failure r.type r d.open_batch d) (step w i r.type r d)
      (next_place w (place_of d.open_batch) r.type r) (step-place w i r.type r d)
      (λ d'. loop-accepts w (i + 1) rs d')
