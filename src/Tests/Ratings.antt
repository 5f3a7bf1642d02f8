-- ===== src/Tests/Ratings.antt =====
-- Four participants, two of whom tie, and a label of two letters.
use study_sys.Prelude.{ℕ, ◌≡◌, [], ◌∷◌, List, refl}
use study_sys.Labels.{letters, backwards, get_label_for_problem}
use study_sys.Ratings.{Key, rank_from, tie_ranker}
use study_sys.Ratings.Runs.{Run, spread}

abbrev key : ℕ → Key
key n = record { score = n; cumtime = 5; tiebreaker = 0 }

abbrev runs : List Run
runs =
    record { key = key 9; more = 0 }
    ∷ record { key = key 7; more = 1 }
    ∷ record { key = key 2; more = 0 }
    ∷ []

four_ranks : tie_ranker (spread runs) ≡ 2 ∷ 5 ∷ 5 ∷ 8 ∷ []
unfolding tie_ranker rank_from
four_ranks = refl

label_27 : get_label_for_problem 27 ≡ 65 ∷ 66 ∷ []
unfolding get_label_for_problem letters backwards
label_27 = refl
