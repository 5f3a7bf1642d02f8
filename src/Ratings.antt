-- ===== src/Ratings.antt =====
-- judge/ratings.py, `tie_ranker`: the ranks of participants, ties sharing the mean of their places.
-- Ranks are doubled, since they may end in one half.
pub mod Ties
pub mod Runs
use study_sys.Prelude.{
  ℕ, zero, suc, ◌+◌, ◌-◌, ◌*◌, Bool, true, false, ◌&&◌, Option, none, some, List, [], ◌∷◌, ◌++◌,
  ◌==◌, if◌then◌else◌,
}

-- `itemgetter('score', 'cumtime', 'tiebreaker')`
pub record Key : Type 0 where
  pub score : ℕ
  pub cumtime : ℕ
  pub tiebreaker : ℕ

abbrev pub key_eq : Key → Key → Bool
key_eq a b = a.score == b.score && a.cumtime == b.cumtime && a.tiebreaker == b.tiebreaker

-- `not new != last`
abbrev pub is_last : Key → Option Key → Bool
is_last new none = false
is_last new (some last) = key_eq new last

abbrev pub repeat : ℕ → ℕ → List ℕ
repeat zero r = []
repeat (suc n) r = r ∷ repeat n r

-- The `for` loop and the loop after it; `buf` is the number of buffered items, each of which is
-- given `2 * (rank + (delta - 1) / 2)`.
unfoldable pub rank_from : ℕ → ℕ → Option Key → ℕ → List Key → List ℕ
rank_from rank delta last buf [] = repeat buf (2 * rank + (delta - 1))
rank_from rank delta last buf (new ∷ items) =
    let same = rank_from rank (delta + 1) (some new) (buf + 1) items in
    let next = rank_from (rank + delta) 1 (some new) 1 items in
    if is_last new last then same else repeat buf (2 * rank + (delta - 1)) ++ next

unfoldable pub tie_ranker : List Key → List ℕ
tie_ranker items = rank_from 0 1 none 0 items
