-- ===== src/Tests/Ranking.antt =====
-- Four participations, of which two share the second place.
use study_sys.Prelude.{◌≡◌, refl, List, [], ◌∷◌, map}
use study_sys.Ranking.{is_before, Key, ranker}
use study_sys.Ranking.Places.{place, ranker-place}

abbrev rows : List Key
rows =
    record { points = 300; cumtime = 50; tiebreaker = 0 }
    ∷ record { points = 200; cumtime = 10; tiebreaker = 0 }
    ∷ record { points = 200; cumtime = 10; tiebreaker = 0 }
    ∷ record { points = 200; cumtime = 90; tiebreaker = 0 }
    ∷ []

ranks : map (λ r. r.0) (ranker rows 0) ≡ 1 ∷ 2 ∷ 2 ∷ 4 ∷ []
unfolding ranker is_before
ranks = refl

ranker-place_example : ranker rows 0 ≡ map (place rows) rows
unfolding ranker is_before
ranker-place_example = ranker-place rows refl
