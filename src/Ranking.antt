-- ===== src/Ranking.antt =====
-- judge/utils/ranker.py, `ranker`, as the lists of judge/views/contests.py use it: the rows of a
-- ranking with their ranks, equal rows sharing one.
pub mod Places
use study_sys.Prelude.{
  ℕ, ◌+◌, Bool, true, false, ◌&&◌, ◌||◌, Option, none, some, List, [], ◌∷◌, ltb, ◌==◌,
  if◌then◌else◌,
}

-- `attrgetter('points', 'cumtime', 'tiebreaker')`; a disqualified participation has the least points.
pub record Key : Type 0 where
  pub points : ℕ
  pub cumtime : ℕ
  pub tiebreaker : ℕ

unfoldable pub same_key : Key → Key → Bool
same_key a b = a.points == b.points && a.cumtime == b.cumtime && a.tiebreaker == b.tiebreaker

-- `new != last`, where `last` is None at first.
abbrev pub is_new : Key → Option Key → Bool
is_new k none = true
is_new k (some last) = if same_key k last then false else true

-- The loop, with its variables; the answer has the rank of each item.
unfoldable pub ranker_from : (rank delta : ℕ) → Option Key → List Key → List (ℕ × Key)
unfolding same_key
ranker_from rank delta last [] = []
ranker_from rank delta last (k ∷ ks) =
    let r = if is_new k last then rank + delta else rank in
    let d = if is_new k last then 0 else delta in (r, k) ∷ ranker_from r (d + 1) (some k) ks

unfoldable pub ranker : List Key → ℕ → List (ℕ × Key)
unfolding ranker_from
ranker ks rank = ranker_from rank 1 none ks

-- The order of `contest_ranking_list`: `-score`, `cumtime`, `tiebreaker`.
unfoldable pub is_before : Key → Key → Bool
is_before a b =
    ltb b.points a.points
    || (a.points == b.points
        && (ltb a.cumtime b.cumtime || (a.cumtime == b.cumtime && ltb a.tiebreaker b.tiebreaker)))
