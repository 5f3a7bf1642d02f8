-- ===== src/ProblemData/Steps.antt =====
-- What the loop of the compiler keeps.
use study_sys.Prelude.{
  count-append, ℕ, ◌+◌, ◌≡◌, ◌∙◌, refl, Bool, true, false, Option, none, some, List, [], ◌∷◌,
  String, if◌then◌else◌, arith, subst, all-append,
}
use study_sys.ProblemData.Shape.{
  Holds, IsDraft, AreEntries, is_valid, is_valid_open, count_open, count_in, total, total-append,
  reads_files, end_open-AreEntries, check_files-reads_files, Holds-bind, Holds-trivial,
}
use study_sys.ProblemData.{
  saved_on_failure, ProblemTestCase, CaseType, normal, batch_start, batch_end, Result, ok, failed,
  value_error, CaseData, Batch, single, World, Draft, some_text, make_checker, end_open, step,
  add_case, start_batch, end_batch, close_batch, case_points, check_files, case_data, place,
  batch_points,
}
use study_sys.ProblemData.Compiler.{is_none, loop}

-- How many cases a row makes that read an input that satisfies `q`.
unfoldable pub weight : (Option String → Bool) → CaseType → ProblemTestCase → ℕ
weight q normal r = if q (some_text r.input_file) then 1 else 0
weight q _ r = 0

-- The points of a case: none inside a batch, and some outside.
abbrev Fits : Option Batch → Option ℕ → Type 0
Fits none points = is_none points ≡ false
Fits (some b) points = Unit {0}

case_points-Fits :
    (i : ℕ) (points : Option ℕ) (o : Option Batch) → Holds (Fits o) (case_points i points o)
unfolding case_points
case_points-Fits i points (some b) = tt
case_points-Fits i none none = tt
case_points-Fits i (some k) none = refl

place-IsDraft :
    (w : World) (q : Option String → Bool) (n : ℕ) (r : ProblemTestCase) (c : CaseData)
    (o : Option Batch) (d : Draft)
    → d.open_batch ≡ o
    → Fits o c.points
    → reads_files w c ≡ true
    → IsDraft w q n d
    → IsDraft w q (n + (if q c.input then 1 else 0)) (place r c o d)
unfolding place is_valid count_in total
place-IsDraft w q n r c none d e f h v = record {
  entries =
      all-append (is_valid w) d.cases (single r.is_pretest c ∷ [])
      ∙ ground (arith, v.entries, f, h);
  in_batch = ground (arith, e);
  counted = ground (arith, total-append q d.cases (single r.is_pretest c ∷ []), v.counted, e);
}
place-IsDraft w q n r c (some b) d e f h v = record {
  entries = v.entries;
  in_batch = all-append (reads_files w) b.batched (c ∷ []) ∙ ground (arith, v.in_batch, e, h);
  counted = ground (arith, count-append (λ x. q x.input) b.batched (c ∷ []), v.counted, e);
}

add_case-IsDraft :
    (w : World) (q : Option String → Bool) (n i : ℕ) (r : ProblemTestCase) (d : Draft)
    → IsDraft w q n d
    → Holds (IsDraft w q (n + (if q (some_text r.input_file) then 1 else 0))) (add_case w i r d)
unfolding add_case case_data
add_case-IsDraft w q n i r d v =
    Holds-bind (Fits d.open_batch) _ (case_points i r.points d.open_batch) _
      (case_points-Fits i r.points d.open_batch)
      (λ points f.
        Holds-bind (λ u. reads_files w (case_data r points none) ≡ true) _ (check_files w i r) _
          (check_files-reads_files w i r points none)
          (λ u h.
            Holds-bind (λ a. Unit {0}) _ (make_checker w r.checker r.checker_args) _
              (Holds-trivial (make_checker w r.checker r.checker_args))
              (λ checker x.
                let v' =
                  place-IsDraft w q n r (case_data r points checker) d.open_batch d refl f h v in
                record { entries = v'.entries; in_batch = v'.in_batch; counted = v'.counted })))

start_batch-IsDraft :
    (w : World) (q : Option String → Bool) (n i : ℕ) (r : ProblemTestCase) (d : Draft)
    → IsDraft w q n d
    → Holds (IsDraft w q n) (start_batch w i r d)
unfolding start_batch
start_batch-IsDraft w q n i r d v =
    Holds-bind (AreEntries w q n) _ (end_open d.open_batch d.cases) _
      (end_open-AreEntries w q n d.open_batch d.cases v.entries v.in_batch v.counted)
      (λ cases a.
        Holds-bind (λ k. Unit {0}) _ (batch_points i r.points) _
          (Holds-trivial (batch_points i r.points))
          (λ points x.
            Holds-bind (λ k. Unit {0}) _ (make_checker w r.checker r.checker_args) _
              (Holds-trivial (make_checker w r.checker r.checker_args))
              (λ checker y. record {
                entries = a.entries;
                in_batch = refl;
                counted = omega (arith, a.counted);
              })))

end_batch-IsDraft :
    (w : World) (q : Option String → Bool) (n i : ℕ) (r : ProblemTestCase) (o : Option Batch)
    (d : Draft)
    → d.open_batch ≡ o
    → IsDraft w q n d
    → Holds (IsDraft w q n) (end_batch i r o d)
unfolding end_batch end_open
end_batch-IsDraft w q n i r none d e v = tt
end_batch-IsDraft w q n i r (some b) d e v =
    Holds-bind (AreEntries w q n) _ (close_batch b d.cases) _
      (end_open-AreEntries w q n (some b) d.cases v.entries
        (subst (λ o. is_valid_open w o ≡ true) e v.in_batch)
        (subst (λ o. total q d.cases + count_open q o ≡ n) e v.counted))
      (λ cases a. record {
        entries = a.entries;
        in_batch = refl;
        counted = omega (arith, a.counted);
      })

step-IsDraft :
    (w : World) (q : Option String → Bool) (n i : ℕ) (type : CaseType) (r : ProblemTestCase)
    (d : Draft)
    → IsDraft w q n d
    → Holds (IsDraft w q (n + weight q type r)) (step w i type r d)
unfolding step weight
step-IsDraft w q n i normal r d v = add_case-IsDraft w q n i r d v
step-IsDraft w q n i batch_start r d v =
    subst (λ m. Holds (IsDraft w q m) (start_batch w i r d)) (omega arith)
      (start_batch-IsDraft w q n i r d v)
step-IsDraft w q n i batch_end r d v =
    subst (λ m. Holds (IsDraft w q m) (end_batch i r d.open_batch d)) (omega arith)
      (end_batch-IsDraft w q n i r d.open_batch d refl v)

-- How many cases the rows make that read an input that satisfies `q`.
unfoldable pub weigh : (Option String → Bool) → List ProblemTestCase → ℕ
weigh q [] = 0
weigh q (r ∷ rs) = weight q r.type r + weigh q rs

loop_on :
    (w : World) (q : Option String → Bool) (m i : ℕ) (rs saved : List ProblemTestCase)
    (o : Result Draft)
    → Holds (λ d'. Holds (IsDraft w q m) (loop w i rs d').0) o
    → Holds
        (IsDraft w q m)
        (elim o as (λ x. Result Draft × List ProblemTestCase) [
          | ok d' ↦ loop w i rs d'
          | failed e ↦ (failed e, saved)
          | value_error ↦ (value_error, saved)
        ]).0
loop_on w q m i rs saved (ok d') h = h
loop_on w q m i rs saved (failed e) h = tt
loop_on w q m i rs saved value_error h = tt

pub Holds-mono :
    {A : Type 0} (P Q : A → Type 0) (r : Result A) → Holds P r → ((a : A) → P a → Q a) → Holds Q r
Holds-mono P Q (ok a) h f = f a h
Holds-mono P Q (failed e) h f = tt
Holds-mono P Q value_error h f = tt

pub loop-IsDraft :
    (w : World) (q : Option String → Bool) (n i : ℕ) (rs : List ProblemTestCase) (d : Draft)
    → IsDraft w q n d
    → Holds (IsDraft w q (n + weigh q rs)) (loop w i rs d).0
unfolding loop weigh
loop-IsDraft w q n i [] d v = record {
  entries = v.entries;
  in_batch = v.in_batch;
  counted = omega (arith, v.counted);
}
loop-IsDraft w q n i (r ∷ rs) d v =
    loop_on w q (n + weigh q (r ∷ rs)) (i + 1) rs (saved_on_failure r.type r d.open_batch d)
      (step w i r.type r d)
      (Holds-mono (IsDraft w q (n + weight q r.type r)) _ (step w i r.type r d)
        (step-IsDraft w q n i r.type r d v)
        (λ d' v'.
          subst (λ m. Holds (IsDraft w q m) (loop w (i + 1) rs d').0) (omega arith)
            (loop-IsDraft w q (n + weight q r.type r) (i + 1) rs d' v')))
