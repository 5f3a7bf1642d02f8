-- ===== src/Bridge/Handler/Leaving.antt =====
-- judge/bridge/judge_handler.py, `JudgeHandler`: a new list of problems, and the end of a connection.
use study_sys.Prelude.{
  str_eq, map, ℕ, Bool, true, false, not, Option, none, some, List, String, ◌==◌, if◌then◌else◌,
}
use study_sys.Grading.{ie}
use study_sys.Store.{Status, Submission, update_submission}
use study_sys.Bridge.JudgeList.{World, find_judge, update_judge, remove, update_problems}
use study_sys.Bridge.Handler.{
  Connection, Ended, JudgeRow, change_judge, set_problems, with_judges, update_judge_row, among,
  drop_versions,
}

-- `self._working` and `self.name` of the handler object.
abbrev pub working_of : Connection → ℕ
working_of c = elim (find_judge c.oid c.host.judges.handlers) [ none ↦ 0 | some j ↦ j.working ]

abbrev pub is_named : Connection → Bool
is_named c = elim (find_judge c.oid c.host.judges.handlers) [
  | none ↦ false
  | some j ↦ elim j.name [ none ↦ false | some n ↦ true ]
]

-- `self.judge.problems.set(…)`; a handler without a row raises an AttributeError.
abbrev pub offer : List String → Connection → Ended
offer problems c = elim c.judge [
  | none ↦ (c, true)
  | some id ↦ (
    record c {
      host = record c.host {
        rows =
            update_judge_row id (λ r. record r { problems = among c.host.problem_codes problems })
              c.host.rows;
      };
    },
    false,
  )
]

unfoldable pub on_supported_problems : World → List String → Connection → Ended
unfolding update_judge find_judge update_judge_row
on_supported_problems world problems c =
    let d = change_judge (set_problems problems) c in
    let (t, failure) = update_problems world c.oid d.host.judges in
    if not (working_of d == 0) then offer problems d else (elim failure [
      | some e ↦ (with_judges t d, true)
      | none ↦ offer problems (with_judges t d)
    ])

abbrev pub go_offline : ℕ → Connection → Connection
go_offline id c = record c {
  host = record c.host {
    rows = update_judge_row id (λ r. record r { online = false }) c.host.rows;
    versions = drop_versions id c.host.versions;
  };
}

-- `_disconnected`, which also raises an AttributeError without a row.
unfoldable pub disconnected : Connection → Ended
unfolding update_judge_row
disconnected c = elim c.judge [ none ↦ (c, true) | some id ↦ (go_offline id c, false) ]

abbrev pub shut_down : Submission → Submission
shut_down s = record s { status = Status.internal_error; result = some ie; error = some "" }

-- The last test of `on_disconnect`.
unfoldable pub end_at : ℕ → Connection → Connection
unfolding update_submission
end_at working c = if working == 0 then c else record c {
  host = record c.host { store = update_submission working shut_down c.host.store };
}

unfoldable pub end_working : Connection → Connection
unfolding end_at find_judge
end_working c = end_at (working_of c) c

abbrev pub go_on : Ended → Ended
go_on (c, true) = (c, true)
go_on (c, false) = (end_working c, false)

-- `on_disconnect`
unfoldable pub on_disconnect : World → Connection → Ended
unfolding disconnected end_working find_judge
on_disconnect world c =
    let (t, failure) = remove world c.oid c.host.judges in
    let d = with_judges t c in
    elim failure [
      | some e ↦ (d, true)
      | none ↦ go_on (if is_named d then disconnected d else (d, false))
    ]

-- `_update_ping` of the load, which is kept on the handler object and in the row with its name. The
-- averages of the latency and of the time are not modelled.
abbrev pub named_by : Option String → JudgeRow → Bool
named_by none r = false
named_by (some name) r = str_eq r.name name

abbrev pub name_of : Connection → Option String
name_of c = elim (find_judge c.oid c.host.judges.handlers) [ none ↦ none | some j ↦ j.name ]

unfoldable pub on_ping_response : ℕ → Connection → Connection
unfolding update_judge find_judge
on_ping_response load c =
    let d = change_judge (λ j. record j { load = load }) c in
    record d {
      host = record d.host {
        rows =
            map (λ r. if named_by (name_of d) r then record r { load = load } else r) d.host.rows;
      };
    }
