-- ===== src/Ratings/Ties.antt =====
-- The ranks that `tie_ranker` gives.
use study_sys.Prelude.{
  ℕ, zero, suc, ◌≡◌, ◌+◌, ◌-◌, ◌*◌, ◌∙◌, some, List, [], ◌∷◌, ◌++◌, refl, arith, length, ap,
  Bool-cases, inl, inr,
}
use study_sys.Ratings.{Key, key_eq, repeat, rank_from, tie_ranker}

abbrev pub sum : List ℕ → ℕ
sum [] = 0
sum (x ∷ xs) = x + sum xs

sum-append : (xs ys : List ℕ) → sum (xs ++ ys) ≡ sum xs + sum ys
sum-append [] ys = omega arith
sum-append (x ∷ xs) ys = omega (arith, sum-append xs ys)

sum-repeat : (n r : ℕ) → sum (repeat n r) ≡ n * r
sum-repeat zero r = omega arith
sum-repeat (suc n) r = grind (arith, sum-repeat n r)

next_sum :
    (b n k : ℕ) {x y : ℕ}
    → x ≡ n * (2 * (b + 1) + (n - 1))
    → y ≡ (1 + k) * (2 * (b + n) + 1 + 1 + k)
    → x + y ≡ (n + suc k) * (2 * b + 1 + n + suc k)
next_sum b zero k e e' = grind (arith, e, e')
next_sum b (suc m) k e e' = grind (arith, e, e')

sum-rank_from :
    (b n : ℕ) (last : Key) (items : List Key)
    → sum (rank_from (b + 1) n (some last) n items)
      ≡ (n + length items) * (2 * b + 1 + n + length items)
unfolding rank_from
sum-rank_from b zero last [] = omega arith
sum-rank_from b (suc m) last [] = sum-repeat (suc m) (2 * (b + 1) + (suc m - 1)) ∙ grind arith
sum-rank_from b n last (new ∷ items) = elim (Bool-cases (key_eq new last)) [
  | inl e ↦ rw (e) (sum-rank_from b (n + 1) new items ∙ grind arith)
  | inr e ↦ rw (e) (
      sum-append (repeat n (2 * (b + 1) + (n - 1))) (rank_from (b + 1 + n) 1 (some new) 1 items)
      ∙ next_sum b n (length items) (sum-repeat n (2 * (b + 1) + (n - 1))) (
          ap (λ k. sum (rank_from k 1 (some new) 1 items)) (omega arith)
          ∙ sum-rank_from (b + n) 1 new items))
]

-- The ranks of `n` participants add up to the sum of their places: doubled, to `n * (n + 1)`.
pub sum-tie_ranker : (items : List Key) → sum (tie_ranker items) ≡ length items * (length items + 1)
unfolding tie_ranker rank_from
sum-tie_ranker [] = refl
sum-tie_ranker (new ∷ items) = sum-rank_from 0 1 new items ∙ grind arith
