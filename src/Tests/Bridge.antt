-- ===== src/Tests/Bridge.antt =====
-- A bridge with two judges of the same name, and submissions of several priorities.
use study_sys.Prelude.{ℕ, ◌≡◌, refl, true, false, none, some, List, [], ◌∷◌, ◌⊎◌}
use study_sys.Prelude.Dict.{lookup}
use study_sys.Bridge.Judge.{Judge, Request, sent, fails_late, is_free, can_judge}
use study_sys.Bridge.Queue.{empty_queue}
use study_sys.Bridge.Queue.Classes.{first_over}
use study_sys.Bridge.JudgeList.{
  check_priority, JudgeList, World, init, judge, least_loaded, hand_over, enroll, register,
  handle_free_judge, abort, choose, known, stays_back, put_off,
}
use study_sys.Bridge.JudgeList.Steps.{
  IsSound, Reach, here, next, judges, Reach-IsSound, init-IsSound,
}
use study_sys.Bridge.JudgeList.Freeing.{
  handle_free_judge-layout, offered, IsHandedOver, judge_remembers, judge_loses,
}

abbrev pub judge_at : ℕ → ℕ → Judge
judge_at oid load = record {
  oid = oid;
  name = some "north";
  problems = "aplusb" ∷ [];
  executors = "PY3" ∷ "CPP17" ∷ [];
  load = load;
  is_disabled = false;
  working = 0;
  registered = true;
}

abbrev pub request : ℕ → Request
request id = record {
  id = id;
  problem = "aplusb";
  language = "PY3";
  source = "print(3)";
  judge_id = none;
}

abbrev pub pair : List Judge
pair = judge_at 1 5 ∷ judge_at 2 3 ∷ []

abbrev pub reliable : World
reliable oid id = sent

abbrev pub flaky : World
flaky oid id = fails_late

abbrev pub no_draw : ℕ → ℕ
no_draw oid = 0

program : Unit {0}
unfolding judge known choose put_off register handle_free_judge abort init least_loaded can_judge
    is_free hand_over enroll empty_queue
program = tt

-- No judge is connected: the submissions wait.
abbrev pub waiting : JudgeList
waiting = (put_off 1 (request 8) (put_off 2 (request 7) (init [])).0).0

chooses_least : choose no_draw 1 (request 7) (init pair) ≡ some (judge_at 2 3)
unfolding program
chooses_least = refl

loses :
    judge 2 flaky no_draw 1 (request 7) (init pair)
    ≡ some (
      record (init pair) {
        handlers = judge_at 1 5 ∷ record (judge_at 2 3) { working = 7; registered = false } ∷ [];
        submission_map = (7, 2) ∷ [];
      },
      none,
    )
unfolding program
loses = refl

empty-IsSound : IsSound (init [])
empty-IsSound = init-IsSound []

put_off_7 :
    judge 2 reliable no_draw 2 (request 7) (init [])
    ≡ some ((put_off 2 (request 7) (init [])).0, none)
unfolding program
put_off_7 = refl

put_off_8 :
    judge 2 reliable no_draw 1 (request 8) (put_off 2 (request 7) (init [])).0
    ≡ some (waiting, none)
unfolding program
put_off_8 = refl

waiting-Reach : Reach (init []) waiting
unfolding check_priority
waiting-Reach =
    next
      (next here (
        judges reliable no_draw 2 (request 7) none (put_off 2 (request 7) (init [])).0 refl
          put_off_7))
      (judges reliable no_draw 1 (request 8) none waiting refl put_off_8)

pub waiting-IsSound : IsSound waiting
waiting-IsSound = Reach-IsSound empty-IsSound waiting-Reach

Reach-IsSound_example : IsSound waiting
Reach-IsSound_example = Reach-IsSound empty-IsSound waiting-Reach

judge_remembers_example :
    (t : JudgeList) × (judge 2 reliable no_draw 3 (request 9) waiting ≡ some (t, none))
    × (known 9 t ≡ true)
    × (judge 1 reliable no_draw 0 (request 9) t ≡ some (t, none))
unfolding check_priority
judge_remembers_example =
    judge_remembers 0 reliable no_draw 3 0 (request 9) waiting refl waiting-IsSound

judge_loses_example :
    (t : JudgeList) × (judge 2 flaky no_draw 1 (request 7) (init pair) ≡ some (t, none))
    × (t.queue ≡ (init pair).queue)
    × (t.node_map ≡ (init pair).node_map)
    × (lookup 7 t.submission_map ≡ some 2)
    × (t.effects ≡ (init pair).effects)
unfolding program
judge_loses_example =
    judge_loses 0 flaky no_draw 1 (request 7) (init pair) (judge_at 2 3) refl refl refl

abrupt : JudgeList
abrupt = record waiting { handlers = pair }

abrupt-IsSound : IsSound abrupt
unfolding abrupt
abrupt-IsSound = waiting-IsSound

-- Two judges are free, so none stays back, and the urgent submission 8 goes first.
handle_free_judge-layout_example :
    let t = (handle_free_judge reliable 1 abrupt).0 in
    ((first_over
          (judge_at 1 5)
          (offered (stays_back abrupt) [] ((1, request 8) ∷ []) (((0, request 7) ∷ []) ∷ [] ∷ []))
        ≡ none)
      × (t ≡ abrupt))
    ⊎ ((h : ℕ) × (r : Request) × (first_over
            (judge_at 1 5)
            (offered (stays_back abrupt) [] ((1, request 8) ∷ []) (((0, request 7) ∷ []) ∷ [] ∷ []))
          ≡ some (h, r))
        × IsHandedOver 1 h r abrupt t
            ([] ∷ ((1, request 8) ∷ []) ∷ ((0, request 7) ∷ []) ∷ [] ∷ []))
unfolding abrupt program
handle_free_judge-layout_example =
    handle_free_judge-layout reliable 1 abrupt (judge_at 1 5) [] ((1, request 8) ∷ [])
      (((0, request 7) ∷ []) ∷ [] ∷ []) refl refl (λ id. refl)
