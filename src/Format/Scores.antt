-- ===== src/Format/Scores.antt =====
-- The scores of the contest formats, and when two formats give the same.
use study_sys.Prelude.{
  ℕ, ◌≡◌, ◌+◌, ◌∙◌, sym, ap, Bool, true, false, List, [], ◌∷◌, ◌++◌, map, refl, arith,
}
use study_sys.Format.{
  ContestSubmission, pos, of_problem, max_points, Row, best_row, latest_row, row_of, rows, Sums,
  no_sums, loop, plain_step, legacy_row, penalty_step, prev, update_default, update_legacy_ioi,
  update_atcoder, update_icpc,
}

-- The sum over the problems of the most points that a submission for it has.
unfoldable pub total : List ℕ → List ContestSubmission → ℕ
total [] subs = 0
total (q ∷ order) subs = max_points (of_problem q subs) + total order subs

sum_points : List Row → ℕ
sum_points [] = 0
sum_points (r ∷ rs) = r.points + sum_points rs

sum_points-append : (xs ys : List Row) → sum_points (xs ++ ys) ≡ sum_points xs + sum_points ys
unfolding sum_points
sum_points-append [] ys = omega arith
sum_points-append (x ∷ xs) ys = omega (arith, sum_points-append xs ys)

module _ (f : ℕ → List ContestSubmission → Row)
    (of_best : (q : ℕ) (g : List ContestSubmission) → (f q g).points ≡ max_points g) where
  sum_points-row : (q : ℕ) (g : List ContestSubmission) → sum_points (row_of f q g) ≡ max_points g
  unfolding sum_points row_of
  sum_points-row q [] = refl
  sum_points-row q (s ∷ g) = omega (arith, of_best q (s ∷ g))

  sum_points-rows :
      (order : List ℕ) (subs : List ContestSubmission)
      → sum_points (rows f order subs) ≡ total order subs
  unfolding rows total sum_points
  sum_points-rows [] subs = refl
  sum_points-rows (q ∷ order) subs =
      sum_points-append (row_of f q (of_problem q subs)) (rows f order subs)
      ∙ omega (arith, sum_points-row q (of_problem q subs), sum_points-rows order subs)

points-loop :
    (step : Sums → Row → Sums)
    → ((t : Sums) (r : Row) → (step t r).points ≡ t.points + r.points)
    → (t : Sums) (rs : List Row) → (loop step t rs).points ≡ t.points + sum_points rs
unfolding sum_points
points-loop step adds t [] = omega arith
points-loop step adds t (r ∷ rs) = omega (arith, points-loop step adds (step t r) rs, adds t r)

sum_points-legacy :
    (cumtime : Bool) (rs : List Row) → sum_points (map (legacy_row cumtime) rs) ≡ sum_points rs
unfolding sum_points legacy_row
sum_points-legacy c [] = refl
sum_points-legacy true (r ∷ rs) = omega (arith, sum_points-legacy true rs)
sum_points-legacy false (r ∷ rs) = omega (arith, sum_points-legacy false rs)

-- All four formats give the same score: the rounded sum over the problems of the most points that
-- a submission of the participation for that problem has.
pub format_scores :
    (round : ℕ → ℕ) (penalty : ℕ) (cumtime : Bool) (order : List ℕ) (subs : List ContestSubmission)
    → ((update_default round order subs).score ≡ round (total order subs))
      × ((update_legacy_ioi round cumtime order subs).score ≡ round (total order subs))
      × ((update_atcoder round penalty order subs).score ≡ round (total order subs))
      × ((update_icpc round penalty order subs).score ≡ round (total order subs))
unfolding update_default update_legacy_ioi update_atcoder update_icpc plain_step penalty_step
    latest_row best_row
format_scores round penalty cumtime order subs =
    let latest = rows latest_row order subs in
    let best = rows best_row order subs in
    let sum_best = sum_points-rows best_row (λ q g. refl) order subs in
    (
      ap round (
          omega (
            arith,
            points-loop plain_step (λ t r. refl) no_sums latest,
            sum_points-rows latest_row (λ q g. refl) order subs,
          )),
      ap round (
          omega (
            arith,
            points-loop plain_step (λ t r. refl) no_sums (map (legacy_row cumtime) best),
            sum_points-legacy cumtime best,
            sum_best,
          )),
      ap round (
          omega (
            arith,
            points-loop (penalty_step true penalty subs) (λ t r. refl) no_sums best,
            sum_best,
          )),
      ap round (
          omega (
            arith,
            points-loop (penalty_step false penalty subs) (λ t r. refl) no_sums best,
            sum_best,
          )),
    )

no_penalty :
    (subs : List ContestSubmission) (rs : List Row) (t a u : Sums)
    → t.cumtime ≡ u.cumtime
    → t.penalty ≡ pos 0
    → a.penalty ≡ pos 0
    → a.cumtime ≡ t.last
    → let t' = loop (penalty_step false 0 subs) t rs in
      let a' = loop (penalty_step true 0 subs) a rs in
      (t'.cumtime ≡ (loop plain_step u (map (legacy_row true) rs)).cumtime)
      × (t'.penalty ≡ pos 0)
      × (a'.penalty ≡ pos 0)
      × (a'.cumtime ≡ t'.last)
unfolding penalty_step plain_step legacy_row prev
no_penalty subs [] t a u c p p' l = (c, p, p', l)
no_penalty subs (r ∷ rs) t a u c p p' l =
    no_penalty subs rs (penalty_step false 0 subs t r) (penalty_step true 0 subs a r)
      (plain_step u (legacy_row true r)) (ground (arith, c)) (ground (arith, p))
      (ground (arith, p')) (ground (arith, l))

-- Without a penalty the ICPC format gives the score and the time of the legacy IOI format with
-- `cumtime`, and breaks ties by the time of the AtCoder format.
pub icpc_without_penalty :
    (round : ℕ → ℕ) (order : List ℕ) (subs : List ContestSubmission)
    → let icpc = update_icpc round 0 order subs in
      let ioi = update_legacy_ioi round true order subs in
      (icpc.score ≡ ioi.score)
      × (icpc.cumtime ≡ ioi.cumtime)
      × ((update_atcoder round 0 order subs).cumtime ≡ pos icpc.tiebreaker)
unfolding update_atcoder update_icpc update_legacy_ioi
icpc_without_penalty round order subs =
    let scores = format_scores round 0 true order subs in
    let times =
      no_penalty subs (rows best_row order subs) no_sums no_sums no_sums refl refl refl refl in
    (scores.3 ∙ sym scores.1, ground (arith, times), ground (arith, times))
