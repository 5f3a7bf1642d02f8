-- ===== src/Tests/Packets.antt =====
-- A submission of two test cases that the judge 1 grades, beside one that waits.
use study_sys.Bridge.Queue.{empty_queue}
use study_sys.Prelude.{◌⊎◌, map, ◌++◌, ℕ, ◌≡◌, ◌≤◌, refl, true, false, none, some, [], ◌∷◌, arith}
use study_sys.Bridge.Queue.{empty_queue}
use study_sys.Grading.{add_case, add_cases, grade, ac, wa, Verdict}
use study_sys.Store.{
  update_submission, Status, Submission, CaseRow, Store, queued, grading, find_row, cases_of,
}
use study_sys.Bridge.JudgeList.{handle_free_judge, on_judge_free, JudgeList, init}
use study_sys.Bridge.JudgeList.Steps.{IsSound, init-IsSound}
use study_sys.Bridge.Packets.{
  bulk_create, integrity_error, max_position, case_row, store_grade, free_self, on_grading_end,
  throttle, Session, grading_end, test_case_status, on_packet, working, CaseResult,
}
use study_sys.Bridge.Packets.Isolation.{Agree, on_packet-Agree}
use study_sys.Bridge.Packets.Cases.{HasUniqueCases, Repeats, on_packet-all_or_none}
use study_sys.Bridge.Packets.Throttle.{posted, throttle_bounds}
use study_sys.Bridge.Packets.Fates.{final_packet-IsEnded, IsEnded}
use study_sys.Tests.Bridge.{judge_at, reliable}

abbrev pub row : ℕ → Status → Submission
row id status = record {
  id = id;
  status = status;
  result = none;
  points = none;
  time = none;
  memory = none;
  case_points = 0;
  case_total = 0;
  error = none;
  current_testcase = 0;
  batch = false;
  is_pretested = false;
  judged_on = none;
  partial = true;
  worth = 1000;
}

abbrev case_at : ℕ → Verdict → ℕ → CaseRow
case_at k v points = record {
  submission = 7;
  test_case = record {
    case = k;
    status = v;
    time = 20;
    memory = 300;
    points = points;
    total = 1000;
    batch = none;
  };
}

abbrev pub tables : Store
tables = record {
  submissions = row 7 grading ∷ row 8 queued ∷ [];
  cases = case_at 1 ac 1000 ∷ case_at 2 wa 0 ∷ [];
}

-- The judge 1 works on the submission 7.
abbrev pub busy : JudgeList
busy = record (init (record (judge_at 1 5) { working = 7 } ∷ [])) { submission_map = (7, 1) ∷ [] }

abbrev pub session : JudgeList → Session
session judges = record {
  oid = 1;
  judge = 4;
  batch_id = none;
  in_batch = false;
  update_counter = [];
  closed = false;
  judges = judges;
  store = tables;
  posts = [];
}

abbrev result : ℕ → CaseResult
result position = record {
  position = position;
  status = 0;
  time = 10;
  memory = 300;
  points = 1000;
  total_points = 1000;
}

busy-IsSound : IsSound busy
busy-IsSound = init-IsSound (record (judge_at 1 5) { working = 7 } ∷ [])

tables-HasUniqueCases : HasUniqueCases tables.cases
tables-HasUniqueCases id k = ground arith

on_packet-Agree_example :
    Agree 8 (on_packet reliable 0 (grading_end 7) (session busy)).0.store tables
unfolding working init
on_packet-Agree_example = on_packet-Agree reliable 0 8 (grading_end 7) (session busy) refl refl

-- The second case is there already: the packet fails.
repeated_fails :
    (on_packet reliable 0 (test_case_status 7 (result 2 ∷ result 3 ∷ [])) (session busy)).1
    ≡ some integrity_error
unfolding on_packet max_position bulk_create update_submission case_row
repeated_fails = refl

on_packet-all_or_none_example :
    let (u, e) =
      on_packet reliable 0 (test_case_status 7 (result 2 ∷ result 3 ∷ [])) (session busy) in
    let all = tables.cases ++ map (case_row (session busy) 7) (result 2 ∷ result 3 ∷ []) in
    ((e ≡ none) × (u.store.cases ≡ all) × HasUniqueCases all)
    ⊎ ((e ≡ some integrity_error) × (u.store.cases ≡ tables.cases) × Repeats all)
unfolding max_position
on_packet-all_or_none_example =
    on_packet-all_or_none reliable 0 7 3 (result 2 ∷ result 3 ∷ []) (session busy)
      tables-HasUniqueCases refl refl

throttle_bounds_example : posted 7 (0 ∷ 100 ∷ 200 ∷ 300 ∷ 400 ∷ 450 ∷ 500 ∷ []) [] ≤ 5
throttle_bounds_example = throttle_bounds 7 0 (100 ∷ 200 ∷ 300 ∷ 400 ∷ 450 ∷ 500 ∷ []) refl

five_posted : posted 7 (0 ∷ 100 ∷ 200 ∷ 300 ∷ 400 ∷ 450 ∷ 500 ∷ []) [] ≡ 5
unfolding posted throttle
five_posted = refl

final_packet-IsEnded_example :
    (new : Submission) × (find_row 7
        (on_packet reliable 0 (grading_end 7) (session busy)).0.store.submissions
      ≡ some new)
    × IsEnded (row 7 grading) new
unfolding on_packet on_grading_end free_self store_grade on_judge_free find_row cases_of grade
    handle_free_judge init empty_queue add_cases add_case
final_packet-IsEnded_example =
    final_packet-IsEnded reliable 0 (grading_end 7) (session busy) (row 7 grading) refl refl refl
      refl
