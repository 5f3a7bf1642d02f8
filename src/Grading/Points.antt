-- ===== src/Grading/Points.antt =====
-- The points of a submission from those of its test cases.
use native.Mathlib.Nat.{mul-le-mul_right}
use study_sys.Prelude.{
  ℕ, ◌+◌, ◌*◌, ◌≤◌, ◌≡◌, Bool, true, false, some, List, [], ◌∷◌, arith, leb, ◌==◌, all,
  Option-cases, Bool-cases, inl, inr, ◌⊎◌,
}
use study_sys.Prelude.Dict.{lookup, delete}
use study_sys.Grading.{
  TestCase, severity, Totals, no_totals, add_to_batch, add_points, add_case, add_cases,
  batch_points, batch_totals, batch_number, Grade, scale_points, grade_of, grade,
}
use study_sys.Grading.Rounding.{round_div_le, round_tenth_mono}

abbrev pub Batches : Type 0
Batches = List (ℕ × (ℕ × ℕ))

-- No batch is worth more than its total.
abbrev AreBounded : Batches → Type 0
AreBounded [] = Unit
AreBounded ((b, (points, total)) ∷ bs) = (points ≤ total) × AreBounded bs

delete-AreBounded : (k : ℕ) (bs : Batches) → AreBounded bs → AreBounded (delete k bs)
delete-AreBounded k [] h = tt
delete-AreBounded k ((b, (p, t)) ∷ bs) h = ground (arith, delete-AreBounded k bs h.1)

lookup-le : (k : ℕ) (bs : Batches) {v : ℕ × ℕ} → AreBounded bs → lookup k bs ≡ some v → v.0 ≤ v.1
lookup-le k [] h e = cc
lookup-le k ((b, (p, t)) ∷ bs) {v} h e = ground (arith, lookup-le k bs {v = v} h.1)

add_to_batch-AreBounded :
    (b p t : ℕ) (bs : Batches) → p ≤ t → AreBounded bs → AreBounded (add_to_batch b p t bs)
unfolding add_to_batch
add_to_batch-AreBounded b p t bs le h = elim (Option-cases (lookup b bs)) [
  | inl new ↦ rw (new, add_to_batch) (le, delete-AreBounded b bs h)
  | inr (old, known) ↦
      rw (known, add_to_batch) (omega (arith, lookup-le b bs h known), delete-AreBounded b bs h)
]

batch_points-le : (bs : Batches) → AreBounded bs → batch_points bs ≤ batch_totals bs
unfolding batch_points batch_totals
batch_points-le [] h = omega arith
batch_points-le ((b, (p, t)) ∷ bs) h = omega (arith, h.0, batch_points-le bs h.1)

record IsBounded (t : Totals) : Type 0 where
  sums : t.points ≤ t.total
  parts : AreBounded t.batches

add_points-IsBounded :
    (c : TestCase) (t : Totals) → c.points ≤ c.total → IsBounded t → IsBounded (add_points c t)
unfolding add_points
add_points-IsBounded c t le v = elim (Bool-cases (batch_number c.batch == 0)) [
  | inl alone ↦ ground arith
  | inr part ↦
      rw (part, add_points)
        (record {
          sums = v.sums;
          parts =
              add_to_batch-AreBounded (batch_number c.batch) c.points c.total t.batches le v.parts;
        })
]

add_case-points :
    (c : TestCase) (t : Totals) {u : Totals}
    → add_case c t ≡ some u
    → (u.points ≡ (add_points c t).points)
      × (u.total ≡ (add_points c t).total)
      × (u.batches ≡ (add_points c t).batches)
unfolding add_case
add_case-points c t {u} e = elim (Option-cases (severity c.status)) [
  | inl bad ↦ ground arith
  | inr (i, level) ↦ ground arith
]

add_case-IsBounded :
    (c : TestCase) (t : Totals) {u : Totals}
    → c.points ≤ c.total
    → IsBounded t
    → add_case c t ≡ some u
    → IsBounded u
add_case-IsBounded c t {u} le v e =
    let (points, total, batches) = add_case-points c t e in
    let w = add_points-IsBounded c t le v in
    record { sums = omega (arith, w.sums); parts = rw batches w.parts }

add_cases-IsBounded :
    (cs : List TestCase) (t : Totals) {u : Totals}
    → all (λ c. leb c.points c.total) cs ≡ true
    → IsBounded t
    → add_cases cs t ≡ some u
    → IsBounded u
unfolding add_cases
add_cases-IsBounded [] t h v e = ground arith
add_cases-IsBounded (c ∷ cs) t {u} h v e = elim (Option-cases (add_case c t)) [
  | inl fails ↦ absurd (ground arith)
  | inr (m, step) ↦
      add_cases-IsBounded cs m {u = u} (ground arith) (add_case-IsBounded c t (ground arith) v step)
        (ground arith)
]

pub scale_points-le :
    (partial : Bool) (worth p t : ℕ) → p ≤ t → scale_points partial worth p t ≤ worth
unfolding scale_points
scale_points-le partial worth p t le =
    ground (arith, round_div_le (p * worth) t worth, mul-le-mul_right worth le)

grade_of_bounds :
    (partial : Bool) (worth : ℕ) (t : Totals)
    → IsBounded t
    → ((grade_of partial worth t).case_points ≤ (grade_of partial worth t).case_total)
      × ((grade_of partial worth t).points ≤ worth)
unfolding grade_of
grade_of_bounds partial worth t v =
    let le =
      round_tenth_mono (t.points + batch_points t.batches) (t.total + batch_totals t.batches)
        (omega (arith, v.sums, batch_points-le t.batches v.parts)) in
    (le, scale_points-le partial worth _ _ le)

-- If no test case gives more points than its total, then a graded submission has at most its case
-- total in case points, and at most the worth of its problem in points.
pub grade_bounds :
    (partial : Bool) (worth : ℕ) (cs : List TestCase) {g : Grade}
    → all (λ c. leb c.points c.total) cs ≡ true
    → grade partial worth cs ≡ some g
    → (g.case_points ≤ g.case_total) × (g.points ≤ worth)
unfolding grade no_totals
grade_bounds partial worth cs {g} h e = elim (Option-cases (add_cases cs no_totals)) [
  | inl fails ↦ absurd (ground arith)
  | inr (t, sums) ↦
      let start : IsBounded no_totals = record { sums = omega arith; parts = tt } in
      let e' : grade_of partial worth t ≡ g = ground arith in
      rw e' at (grade_of_bounds partial worth t (add_cases-IsBounded cs no_totals h start sums))
]

-- Without partial points a submission gets all or nothing.
pub grade_all_or_nothing :
    (worth : ℕ) (cs : List TestCase) {g : Grade}
    → grade false worth cs ≡ some g
    → (g.points ≡ 0) ⊎ (g.points ≡ worth)
unfolding grade grade_of scale_points
grade_all_or_nothing worth cs {g} e = elim (Option-cases (add_cases cs no_totals)) [
  | inl fails ↦ absurd (ground arith)
  | inr (t, sums) ↦ ground arith
]
