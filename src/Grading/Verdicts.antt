-- ===== src/Grading/Verdicts.antt =====
-- The verdict of a submission from those of its test cases.
use study_sys.Prelude.{
  leb, max, ℕ, ◌+◌, ◌≡◌, ◌↔◌, refl, Bool, true, false, ◌&&◌, ◌||◌, none, some, List, [], ◌∷◌, arith,
  ltb, if◌then◌else◌, any, all, Option-cases, inl, inr,
}
use study_sys.Grading.{
  Verdict, TestCase, has_flag, decode_status, severity, Totals, no_totals, add_points, add_case,
  add_cases, Grade, grade_of, grade, ac, sc,
}

abbrev pub flags : List ℕ
flags = 4 ∷ 8 ∷ 64 ∷ 2 ∷ 16 ∷ 1 ∷ 32 ∷ []

-- A test case passes exactly when none of the seven flags is set in its status.
pub decode_status-ac : (n : ℕ) → (decode_status n ≡ ac) ↔ (any (has_flag n) flags ≡ false)
unfolding decode_status
decode_status-ac n = ground arith

abbrev pub has_severity : Verdict → Bool
has_severity v = elim (severity v) [ none ↦ false | some _ ↦ true ]

pub decode_status-severity : (n : ℕ) → has_severity (decode_status n) ≡ true
unfolding decode_status severity
decode_status-severity n = ground arith

add_points-status : (c : TestCase) (t : Totals) → (add_points c t).status ≡ t.status
unfolding add_points
add_points-status c t = ground arith

abbrev pub has_passed : TestCase → Bool
has_passed c = elim c.status [ ac ↦ true | sc ↦ true | _ ↦ false ]

abbrev pub has_run : TestCase → Bool
has_run c = elim c.status [ sc ↦ false | _ ↦ true ]

result-ac :
    (worth : ℕ) (partial : Bool) (cs : List TestCase) (u : Totals)
    → leb u.status 1 ≡ (leb 0 1 && all has_passed cs)
    → ltb 0 u.status ≡ (ltb 0 0 || any has_run cs)
    → ((grade_of partial worth u).result ≡ ac)
      ↔ ((all has_passed cs ≡ true) × (any has_run cs ≡ true))
unfolding grade_of
result-ac worth partial cs u low high = ground arith

-- The new values of `add_case`, where it raises nothing.
add_case-status :
    (c : TestCase) (t : Totals)
    → has_severity c.status ≡ true
    → (u : Totals) × (add_case c t ≡ some u)
      × (leb u.status 1 ≡ (leb t.status 1 && has_passed c))
      × (ltb 0 u.status ≡ (ltb 0 t.status || has_run c))
unfolding add_case
add_case-status c t h = elim (Option-cases (severity c.status)) [
  | inl bad ↦ absurd (ground arith)
  | inr (i, level) ↦ (
    record (add_points c t) {
      time = t.time + c.time;
      memory = max t.memory c.memory;
      status = if ltb t.status i then i else t.status;
    },
    ground arith,
    ground (arith, add_points-status c t),
    ground arith,
  )
]

-- The loop ends without a ValueError if each status has a severity.
add_cases-status :
    (cs : List TestCase) (t : Totals)
    → all (λ c. has_severity c.status) cs ≡ true
    → (u : Totals) × (add_cases cs t ≡ some u)
      × (leb u.status 1 ≡ (leb t.status 1 && all has_passed cs))
      × (ltb 0 u.status ≡ (ltb 0 t.status || any has_run cs))
unfolding add_cases
add_cases-status [] t h = (t, refl, ground arith, ground arith)
add_cases-status (c ∷ cs) t h =
    let (m, step, low, high) = add_case-status c t (ground arith) in
    let (u, rest, lows, highs) = add_cases-status cs m (ground arith) in
    (u, ground arith, ground arith, ground arith)

-- If every test case has a status that `on_test_case` can give, the grading raises nothing, and the
-- result is AC exactly when each case is accepted or was skipped, and not all were skipped.
pub grade-ac :
    (partial : Bool) (worth : ℕ) (cs : List TestCase)
    → all (λ c. has_severity c.status) cs ≡ true
    → (g : Grade) × (grade partial worth cs ≡ some g)
      × ((g.result ≡ ac) ↔ ((all has_passed cs ≡ true) × (any has_run cs ≡ true)))
unfolding grade no_totals
grade-ac partial worth cs h =
    let (u, done, low, high) = add_cases-status cs no_totals h in
    (grade_of partial worth u, ground arith, result-ac worth partial cs u low high)
