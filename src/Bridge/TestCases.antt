-- ===== src/Bridge/TestCases.antt =====
-- judge/bridge/judge_handler.py, `on_test_case`: the results of test cases, and the limit of the rate
-- at which they are posted.
use study_sys.Prelude.{
  ℕ, Bool, true, false, not, Option, none, some, List, [], ◌∷◌, ◌++◌, ◌==◌, ◌+◌, ◌-◌, if◌then◌else◌,
  max, ltb, any, ◌&&◌, map,
}
use study_sys.Prelude.Dict.{lookup, insert}
use study_sys.Grading.{decode_status}
use mathlib.Core.Option.{map as map_option}
use study_sys.Store.{CaseRow, has_row, update_submission, anyone}
use study_sys.Bridge.Session.{value_error, integrity_error, Session, CaseResult, Answer, store_to}

abbrev pub update_rate_limit : ℕ
update_rate_limit = 5

abbrev pub update_rate_time : ℕ
update_rate_time = 500

-- The limit of the rate of posts: the new counter, and whether this update is posted. The clock is
-- read once; the source reads it again when it makes a new entry.
unfoldable pub throttle : ℕ → ℕ → List (ℕ × (ℕ × ℕ)) → List (ℕ × (ℕ × ℕ)) × Bool
throttle now id counter = elim (lookup id counter) [
  | none ↦ (insert id (1, now) counter, true)
  | some (cnt, reset) ↦
      if ltb update_rate_time (now - reset)
      then (insert id (1, now) counter, true)
      else (insert id (cnt + 1, reset) counter, not (ltb update_rate_limit (cnt + 1)))
]

-- `max(map(itemgetter('position'), updates))`; `none` is the ValueError for no updates.
unfoldable pub max_position : List CaseResult → Option ℕ
max_position [] = none
max_position (r ∷ []) = some r.position
max_position (r ∷ (r' ∷ rs)) = map_option (max r.position) (max_position (r' ∷ rs))

unfoldable pub case_row : Session → ℕ → CaseResult → CaseRow
case_row σ id r = record {
  submission = id;
  test_case = record {
    case = r.position;
    status = decode_status r.status;
    time = r.time;
    memory = r.memory;
    points = r.points;
    total = r.total_points;
    batch = if σ.in_batch then σ.batch_id else none;
  };
}

abbrev pub same_case : CaseRow → CaseRow → Bool
same_case a b = a.submission == b.submission && a.test_case.case == b.test_case.case

-- `bulk_create` with the constraint that a submission has one row for a case: all or nothing.
unfoldable pub bulk_create : List CaseRow → List CaseRow → Option (List CaseRow)
bulk_create [] cases = some cases
bulk_create (c ∷ cs) cases = elim (any (same_case c) cases) [
  | true ↦ none
  | false ↦ bulk_create cs (cases ++ (c ∷ []))
]

unfoldable pub store_cases : List CaseRow → Session → Answer
store_cases rows σ = elim (bulk_create rows σ.store.cases) [
  | none ↦ (σ, some integrity_error)
  | some cases ↦ (store_to σ (λ t. record t { cases = cases }), none)
]

-- The test cases of a submission that exists, the last of them at `top`.
unfoldable pub add_results : ℕ → ℕ → ℕ → List CaseResult → Session → Answer
unfolding throttle store_cases
add_results now id top results σ =
    let (counter, do_post) = throttle now id σ.update_counter in
    store_cases (map (case_row σ id) results) (
      store_to
        (record σ { update_counter = counter; posts = if do_post then id ∷ σ.posts else σ.posts })
        (update_submission id (λ s. record s { current_testcase = top + 1 })))

unfoldable pub on_test_case : ℕ → ℕ → List CaseResult → Session → Answer
unfolding add_results
on_test_case now id results σ = elim (max_position results) [
  | none ↦ (σ, some value_error)
  | some top ↦
      if has_row id anyone σ.store.submissions then add_results now id top results σ else (σ, none)
]
