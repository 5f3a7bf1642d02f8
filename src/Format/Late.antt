-- ===== src/Format/Late.antt =====
-- A submission after the first best one of its problem, under the formats with a penalty.
use study_sys.Prelude.{
  ◌⊎◌, subst, ℕ, ◌≡◌, ◌≢◌, ◌≤◌, ◌<◌, ◌∙◌, sym, ap, true, false, Bool, List, [], ◌∷◌, ◌++◌, refl,
  arith, keep, ◌==◌, max, Bool-cases, inl, inr, ==_iff,
}
use study_sys.Format.{
  ContestSubmission, of_problem, max_points, min_date, Row, best_row, row_of, rows, Sums, no_sums,
  loop, penalty_step, prev, tries, update_atcoder, update_icpc,
}

loop-append :
    (f : Sums → Row → Sums) (t : Sums) (xs ys : List Row)
    → loop f t (xs ++ ys) ≡ loop f (loop f t xs) ys
loop-append f t [] ys = refl
loop-append f t (x ∷ xs) ys = loop-append f (f t x) xs ys

keep-max :
    (g : List ContestSubmission) (m : ℕ)
    → max_points g ≡ m
    → 0 < m
    → keep (λ s. s.points == m) g ≢ []
keep-max [] m e lt = omega arith
keep-max (s ∷ g) m e lt = ground (arith, e, lt, keep-max g m)

min_date-cons :
    (s : ContestSubmission) (g : List ContestSubmission)
    → g ≢ []
    → min_date g < s.date
    → min_date (s ∷ g) ≡ min_date g
min_date-cons s [] full lt = ground (arith, full)
min_date-cons s (x ∷ g) full lt = omega arith

best_time_late :
    (m : ℕ) (s : ContestSubmission) (g : List ContestSubmission)
    → keep (λ t. t.points == m) g ≢ []
    → min_date (keep (λ t. t.points == m) g) < s.date
    → min_date (keep (λ t. t.points == m) (s ∷ g)) ≡ min_date (keep (λ t. t.points == m) g)
best_time_late m s g full lt = ground (arith, min_date-cons s (keep (λ t. t.points == m) g) full lt)

best_row_late :
    (q : ℕ) (s : ContestSubmission) (g : List ContestSubmission)
    → 0 < max_points g
    → s.points ≤ max_points g
    → (best_row q g).time < s.date
    → best_row q (s ∷ g) ≡ best_row q g
unfolding best_row
best_row_late q s g some_points le lt =
    let m = max_points g in
    let row : ℕ → ℕ → Row = λ k time. record { prob = q; points = k; time = time } in
    let same : max s.points m ≡ m = omega arith in
    ap (λ k. row k (min_date (keep (λ t. t.points == k) (s ∷ g)))) same
    ∙ ap (row m) (best_time_late m s g (keep-max g m refl some_points) lt)

-- `s` comes after the first submission with the most points for the problem `q`, and these points
-- are not 0.
pub record IsLate (q : ℕ) (s : ContestSubmission) (subs : List ContestSubmission) : Type 0 where
  pub solved : 0 < max_points (of_problem q subs)
  pub no_better : s.points ≤ max_points (of_problem q subs)
  pub later : (best_row q (of_problem q subs)).time < s.date

IsLate-at :
    (q : ℕ) (s : ContestSubmission) (subs : List ContestSubmission)
    → IsLate s.problem s subs
    → (s.problem == q) ≡ true
    → IsLate q s subs
IsLate-at q s subs late e = subst (λ x. IsLate x s subs) ((==_iff s.problem q).0 e) late

row_of_solved :
    (q : ℕ) (g : List ContestSubmission)
    → 0 < max_points g
    → row_of best_row q g ≡ best_row q g ∷ []
unfolding row_of
row_of_solved q [] lt = ground (arith, lt)
row_of_solved q (s ∷ g) lt = refl

row_of-cases :
    (q : ℕ) (g : List ContestSubmission)
    → (row_of best_row q g ≡ []) ⊎ (row_of best_row q g ≡ best_row q g ∷ [])
unfolding row_of
row_of-cases q [] = inl refl
row_of-cases q (s ∷ g) = inr refl

row_of_late :
    (q : ℕ) (s : ContestSubmission) (g : List ContestSubmission)
    → 0 < max_points g
    → s.points ≤ max_points g
    → (best_row q g).time < s.date
    → row_of best_row q (s ∷ g) ≡ row_of best_row q g
unfolding row_of
row_of_late q s g some_points le lt =
    ap (λ r. r ∷ []) (best_row_late q s g some_points le lt) ∙ sym (row_of_solved q g some_points)

row_late :
    (q : ℕ) (s : ContestSubmission) (subs : List ContestSubmission)
    → IsLate s.problem s subs
    → row_of best_row q (of_problem q (s ∷ subs)) ≡ row_of best_row q (of_problem q subs)
row_late q s subs late = elim (Bool-cases (s.problem == q)) [
  | inl e ↦
      let at = IsLate-at q s subs late e in
      rw (e) (row_of_late q s (of_problem q subs) at.solved at.no_better at.later)
  | inr e ↦ rw (e) refl
]

tries_late :
    (q : ℕ) (s : ContestSubmission) (subs : List ContestSubmission)
    → IsLate s.problem s subs
    → tries (s ∷ subs) (best_row q (of_problem q subs))
      ≡ tries subs (best_row q (of_problem q subs))
unfolding tries best_row
tries_late q s subs late = elim (Bool-cases (s.problem == q)) [
  | inl e ↦ let at = IsLate-at q s subs late e in ground (arith, e, at.solved, at.later)
  | inr e ↦ rw (e) refl
]

module _ (largest : Bool) (penalty : ℕ) (s : ContestSubmission) (subs : List ContestSubmission)
    (late : IsLate s.problem s subs) where
  step_late :
      (q : ℕ) (t : Sums)
      → penalty_step largest penalty (s ∷ subs) t (best_row q (of_problem q subs))
        ≡ penalty_step largest penalty subs t (best_row q (of_problem q subs))
  unfolding penalty_step prev
  step_late q t = rw (tries_late q s subs late) refl

  row_loop_late :
      (q : ℕ) (t : Sums)
      → loop (penalty_step largest penalty (s ∷ subs)) t (row_of best_row q (of_problem q subs))
        ≡ loop (penalty_step largest penalty subs) t (row_of best_row q (of_problem q subs))
  row_loop_late q t = elim (row_of-cases q (of_problem q subs)) [
    | inl e ↦ rw (e) refl
    | inr e ↦ rw (e) (step_late q t)
  ]

  loop_late :
      (order : List ℕ) (t : Sums)
      → loop (penalty_step largest penalty (s ∷ subs)) t (rows best_row order (s ∷ subs))
        ≡ loop (penalty_step largest penalty subs) t (rows best_row order subs)
  unfolding rows
  loop_late [] t = refl
  loop_late (q ∷ order) t =
      let new = penalty_step largest penalty (s ∷ subs) in
      let old = penalty_step largest penalty subs in
      let row = row_of best_row q (of_problem q subs) in
      loop-append new t (row_of best_row q (of_problem q (s ∷ subs)))
        (rows best_row order (s ∷ subs))
      ∙ ap (λ x. loop new (loop new t x) (rows best_row order (s ∷ subs))) (row_late q s subs late)
      ∙ ap (λ u. loop new u (rows best_row order (s ∷ subs))) (row_loop_late q t)
      ∙ loop_late order (loop old t row)
      ∙ sym (loop-append old t row (rows best_row order subs))

-- Under the ICPC and AtCoder formats a submission, added in front of the rows, changes nothing of
-- the result if it is made after the first one with the most points for its problem, has no more
-- points, and these are not 0.
pub penalty_formats_late :
    (round : ℕ → ℕ) (penalty : ℕ) (order : List ℕ) (s : ContestSubmission)
    (subs : List ContestSubmission)
    → IsLate s.problem s subs
    → (update_icpc round penalty order (s ∷ subs) ≡ update_icpc round penalty order subs)
      × (update_atcoder round penalty order (s ∷ subs) ≡ update_atcoder round penalty order subs)
unfolding update_icpc update_atcoder
penalty_formats_late round penalty order s subs late = (
  rw (loop_late false penalty s subs late order no_sums) refl,
  rw (loop_late true penalty s subs late order no_sums) refl,
)
