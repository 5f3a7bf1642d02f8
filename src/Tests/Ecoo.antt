-- ===== src/Tests/Ecoo.antt =====
-- Two submissions to a problem of three points, the second one worse.
use study_sys.Prelude.{◌≡◌, refl, false, some, [], ◌∷◌, arith, ◌==◌, if◌then◌else◌}
use study_sys.Grading.{ce, ac, wa}
use study_sys.Format.{ContestSubmission, pos, ◌+ℤ◌}
use study_sys.Format.Ecoo.{entries, Config, time_points, update_ecoo, entry_replaced}

abbrev config : Config
config = record { cumtime = false; first_ac_bonus = 10; time_bonus = 5 }

abbrev solved : ContestSubmission
solved = record { problem = 1; points = 3; date = 600; result = some ac }

abbrev worse : ContestSubmission
worse = record { problem = 1; points = 1; date = 900; result = some wa }

abbrev broken : ContestSubmission
broken = record { problem = 1; points = 0; date = 300; result = some ce }

first_score : (update_ecoo (λ x. x) config (λ q. 3) 1 3600 (1 ∷ []) (solved ∷ [])).score ≡ pos 23
unfolding update_ecoo
first_score = refl

second_score :
    (update_ecoo (λ x. x) config (λ q. 3) 1 3600 (1 ∷ []) (worse ∷ solved ∷ [])).score ≡ pos 10
unfolding update_ecoo
second_score = refl

-- The first submission of all does not compile, and does not count.
entry_replaced_example :
    entries config (λ q. 3) 1 3600 (1 ∷ []) (worse ∷ solved ∷ broken ∷ [])
    ≡ record {
      problem = 1;
      time = 900;
      points = 1;
      bonus = if 1 == 0 then pos 0 else pos 0 +ℤ time_points config 1 3600 900;
    }
      ∷ entries config (λ q. 3) 1 3600 [] (worse ∷ solved ∷ broken ∷ [])
entry_replaced_example =
    entry_replaced config (λ q. 3) 1 3600 1 [] worse solved (solved ∷ broken ∷ []) [] refl refl refl
      (omega arith)
