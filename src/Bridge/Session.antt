-- ===== src/Bridge/Session.antt =====
-- judge/bridge/judge_handler.py, `JudgeHandler`: its state while a submission is graded, and the
-- packets of a judge. Times are milliseconds.
use study_sys.Prelude.{ℕ, Bool, Option, List, String}
use study_sys.Store.{Store}
use study_sys.Bridge.JudgeList.State.{JudgeList, Exception}

-- Why a handler fails; `on_packet` logs this and goes on.
pub data Fault : Type 0 where
  judges_fault : Exception → Fault
  value_error integrity_error : Fault

-- A handler that is named by `oid` in the list of judges, and what it shares with the site.
pub record Session : Type 0 where
  pub oid : ℕ
  pub judge : ℕ
  pub batch_id : Option ℕ
  pub in_batch : Bool
  pub update_counter : List (ℕ × (ℕ × ℕ))
  pub closed : Bool
  pub judges : JudgeList
  pub store : Store
  pub posts : List ℕ

-- A result of `packet['cases']`.
pub record CaseResult : Type 0 where
  pub position : ℕ
  pub status : ℕ
  pub time : ℕ
  pub memory : ℕ
  pub points : ℕ
  pub total_points : ℕ

pub data Packet : Type 0 where
  grading_begin : (id : ℕ) (pretested : Bool) → Packet
  grading_end : (id : ℕ) → Packet
  compile_error : (id : ℕ) (log : String) → Packet
  compile_message : (id : ℕ) (log : String) → Packet
  batch_begin batch_end : (id : ℕ) → Packet
  test_case_status : (id : ℕ) (results : List CaseResult) → Packet
  internal_error : (id : ℕ) (message : String) → Packet
  submission_terminated : (id : ℕ) → Packet
  submission_acknowledged : (id : ℕ) → Packet

abbrev pub Answer : Type 0
Answer = Session × Option Fault

abbrev pub store_to : Session → (Store → Store) → Session
store_to σ f = record σ { store = f σ.store }
