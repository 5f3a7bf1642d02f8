-- ===== src/Bridge/Judge.antt =====
-- judge/bridge/judge_handler.py: the part of a `JudgeHandler` that the list of judges reads and
-- writes. A handler object is named by `oid`; membership in the set `JudgeList.judges` is kept on
-- the object, in `registered`. Submission ids are positive, so 0 stands for `_working = False`.
-- Loads are numbers that are only compared.
use study_sys.Prelude.{
  ℕ, String, Bool, true, false, ◌&&◌, ◌||◌, not, Option, none, some, List, str_eq, ◌==◌, elem_text,
}

pub record Judge : Type 0 where
  pub oid : ℕ
  pub name : Option String
  pub problems : List String
  pub executors : List String
  pub load : ℕ
  pub is_disabled : Bool
  pub working : ℕ
  pub registered : Bool

-- The five values that a queue node and the methods `judge` and `submit` carry.
pub record Request : Type 0 where
  pub id : ℕ
  pub problem : String
  pub language : String
  pub source : String
  pub judge_id : Option String

-- `bool(judge_id)`: None and the empty text are false.
unfoldable pub is_given : Option String → Bool
is_given none = false
is_given (some s) = not (str_eq s "")

-- `self.name == judge_id`
unfoldable pub same_name : Option String → Option String → Bool
same_name none none = true
same_name (some s) (some t) = str_eq s t
same_name _ _ = false

unfoldable pub can_judge : Judge → Request → Bool
unfolding is_given same_name
can_judge j r =
    elem_text r.problem j.problems
    && elem_text r.language j.executors
    && (not (is_given r.judge_id) && not j.is_disabled || same_name j.name r.judge_id)

unfoldable pub is_working : Judge → Bool
is_working j = not (j.working == 0)

-- `not judge.working and not judge.is_disabled`
unfoldable pub is_free : Judge → Bool
unfolding is_working
is_free j = not (is_working j) && not j.is_disabled

-- What the outside world does to a call of `submit`: the packet is sent, the query for the
-- submission's data fails before `_working` is set, or something fails after that (the submission
-- has vanished, or the socket is gone).
pub data Outcome : Type 0 where
  sent fails_early fails_late : Outcome

-- What a call of `submit` leaves of the handler, and whether it returns.
unfoldable pub submit : Outcome → Request → Judge → Judge
submit fails_early r j = j
submit _ r j = record j { working = r.id }

unfoldable pub returns : Outcome → Bool
returns sent = true
returns _ = false
