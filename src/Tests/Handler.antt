-- ===== src/Tests/Handler.antt =====
-- A judge that connects while submissions wait, and one that leaves at work.
use study_sys.Prelude.{List, ◌≡◌, ◌⊎◌, refl, true, false, none, some, [], ◌∷◌, str_eq, String}
use mathlib.Core.Option.{map as map_option}
use study_sys.Store.{find_row, grading}
use study_sys.Bridge.Judge.{can_judge, Judge}
use study_sys.Bridge.JudgeList.{put_off, init, handle_free_judge, find_judge}
use study_sys.Bridge.JudgeList.Steps.{init-IsSound}
use study_sys.Bridge.Queue.{empty_queue}
use study_sys.Bridge.Handler.{JudgeRow, Connection, HandshakePacket, on_handshake}
use study_sys.Bridge.Handler.Leaving.{on_disconnect}
use study_sys.Bridge.Handler.Handshake.{
  IsUnreadable, IsAdmitted, on_handshake-IsAdmitted, graded_by, disable_rows,
  on_handshake-disable_rows,
}
use study_sys.Bridge.Handler.Departure.{HasEnded, on_disconnect-HasEnded}
use study_sys.Bridge.Handler.Runtimes.{
  VersionRow, one_version, last_row, runtime_versions, runtime_of, Table, runtime_versions-last_row,
}
use study_sys.Tests.Bridge.{judge_at, reliable, waiting}
use study_sys.Tests.Packets.{tables, busy, row}

abbrev unknown : Judge
unknown = record (judge_at 3 0) { name = none; problems = []; executors = []; registered = false }

abbrev north : JudgeRow
north = record {
  id = 5;
  name = "north";
  auth_key = "secret";
  is_blocked = false;
  is_disabled = true;
  online = false;
  problems = [];
  runtimes = [];
  load = 0;
}

abbrev arriving : Connection
arriving = record {
  oid = 3;
  judge = none;
  timeout = 15;
  is_closed = false;
  host = record {
    judges = record waiting { handlers = unknown ∷ [] };
    store = tables;
    rows = north ∷ [];
    versions = [];
    problem_codes = "aplusb" ∷ [];
    language_keys = "PY3" ∷ [];
    is_ascii = λ s. true;
  };
}

abbrev hello : HandshakePacket
hello = record {
  id = some "north";
  key = some "secret";
  problems = some ("aplusb" ∷ []);
  executors = some (("PY3", ("python3", 3 ∷ 11 ∷ []) ∷ []) ∷ []);
}

-- The judge is disabled, and grades a submission.
disabled_grades : graded_by (on_handshake reliable hello arriving).0 ≡ (8, 3) ∷ []
unfolding on_handshake handle_free_judge put_off init empty_queue can_judge
disabled_grades = refl

on_handshake-IsAdmitted_example :
    let p = record hello { key = some "guess" } in
    (on_handshake reliable p arriving ≡ (record arriving { is_closed = true }, false))
    ⊎ ((on_handshake reliable p arriving ≡ (arriving, true)) × IsUnreadable p arriving)
    ⊎ IsAdmitted p arriving
on_handshake-IsAdmitted_example =
    on_handshake-IsAdmitted reliable (record hello { key = some "guess" }) arriving

on_handshake-disable_rows_example :
    graded_by (on_handshake reliable hello (disable_rows false arriving)).0
    ≡ graded_by (on_handshake reliable hello arriving).0
on_handshake-disable_rows_example = on_handshake-disable_rows reliable hello false arriving

abbrev leaving : Connection
leaving = record arriving { oid = 1; judge = some 5; host = record arriving.host { judges = busy } }

on_disconnect-HasEnded_example :
    let (d, raised) = on_disconnect reliable leaving in
    (raised ≡ false) × HasEnded (record (judge_at 1 5) { working = 7 }) (row 7 grading) d
unfolding find_judge find_row init
on_disconnect-HasEnded_example =
    on_disconnect-HasEnded reliable leaving (record (judge_at 1 5) { working = 7 }) 5
      (row 7 grading) (init-IsSound []) refl refl refl refl refl

abbrev python : String → String → VersionRow
python judge version = record {
  judge = judge;
  key = "PY3";
  language = "Python 3";
  version = version;
  name = "python3";
}

abbrev two_versions : List VersionRow
two_versions = python "north" "3.11" ∷ python "north" "3.12" ∷ []

one_left :
    runtime_versions two_versions []
    ≡ some (("north", ("PY3", one_version (python "north" "3.12")) ∷ []) ∷ [])
unfolding runtime_versions
one_left = refl

runtime_versions-last_row_example :
    (t : Table) × (runtime_versions two_versions [] ≡ some t)
    × ((j k : String) → runtime_of j k t ≡ map_option one_version (last_row j k two_versions))
runtime_versions-last_row_example = runtime_versions-last_row (str_eq "north") two_versions refl
