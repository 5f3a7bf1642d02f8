-- ===== src/Bridge/JudgeList/State.antt =====
-- The state of `JudgeList`, with the handler objects that it shares with the connections, and the
-- packets that it makes the handlers send, newest first.
use study_sys.Prelude.{ℕ, Bool, Option, none, some, List, [], ◌∷◌, ◌==◌, if◌then◌else◌}
use study_sys.Bridge.Judge.{Judge}
use study_sys.Bridge.Queue.{Node, empty_queue}

pub data Exception : Type 0 where
  key_error index_error : Exception

pub data Effect : Type 0 where
  request_sent : (oid id : ℕ) → Effect
  terminate_sent : (oid : ℕ) → Effect
  disconnect_sent : (oid : ℕ) → Effect
  closed : (oid : ℕ) → Effect

-- `node_map` takes a submission to the handle of its node, `submission_map` to the `oid` of the
-- handler that grades it. `next_handle` names the next node that is made.
pub record JudgeList : Type 0 where
  pub handlers : List Judge
  pub queue : List Node
  pub next_handle : ℕ
  pub node_map : List (ℕ × ℕ)
  pub submission_map : List (ℕ × ℕ)
  pub effects : List Effect

abbrev pub Run : Type 0
Run = JudgeList × Option Exception

unfoldable pub init : List Judge → JudgeList
init handlers = record {
  handlers = handlers;
  queue = empty_queue;
  next_handle = 0;
  node_map = [];
  submission_map = [];
  effects = [];
}

unfoldable pub find_judge : ℕ → List Judge → Option Judge
find_judge oid [] = none
find_judge oid (j ∷ js) = if j.oid == oid then some j else find_judge oid js

-- A mutation of one handler object.
unfoldable pub update_judge : ℕ → (Judge → Judge) → List Judge → List Judge
update_judge oid f [] = []
update_judge oid f (j ∷ js) = (if j.oid == oid then f j else j) ∷ update_judge oid f js

abbrev pub set_registered : Bool → Judge → Judge
set_registered b j = record j { registered = b }

-- `self.judges.discard(judge)`, and `self.judges.add(judge)` with true.
unfoldable pub enroll : Bool → ℕ → JudgeList → JudgeList
unfolding update_judge
enroll b oid s = record s { handlers = update_judge oid (set_registered b) s.handlers }
