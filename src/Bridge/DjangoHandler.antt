-- ===== src/Bridge/DjangoHandler.antt =====
-- judge/bridge/django_handler.py: the requests of the site to the list of judges. An exception of
-- the list is answered by `bad-request`.
use study_sys.Prelude.{ℕ, Bool, Option, none, some, if◌then◌else◌, String}
use study_sys.Bridge.Judge.{Request}
use study_sys.Bridge.JudgeList.{
  JudgeList, World, judge, abort, disconnect, by_name, update_disable_judge, check_priority,
}

pub data DjangoPacket : Type 0 where
  submission_request : (priority : ℕ) (request : Request) → DjangoPacket
  terminate_submission : (id : ℕ) → DjangoPacket
  disconnect_judge : (name : Option String) (force : Bool) → DjangoPacket
  disable_judge : (name : Option String) (is_disabled : Bool) → DjangoPacket
  malformed : DjangoPacket

-- `null` stands for the answer None.
pub data Reply : Type 0 where
  bad_request null : Reply
  submission_received : (id : ℕ) → Reply
  judge_aborted : Bool → Reply

-- `judge` ends with two units of fuel.
unfoldable pub on_submission : World → (ℕ → ℕ) → ℕ → Request → JudgeList → JudgeList × Reply
on_submission world draw priority r s =
    if check_priority priority
    then (elim (judge 2 world draw priority r s) [
      | none ↦ (s, bad_request)
      | some (t, none) ↦ (t, submission_received r.id)
      | some (t, some e) ↦ (t, bad_request)
    ])
    else (s, bad_request)

unfoldable pub on_termination : ℕ → JudgeList → JudgeList × Reply
on_termination id s = let (t, aborted) = abort id s in (t, judge_aborted aborted)

-- `on_packet`, with the handler that the packet names.
unfoldable pub on_packet : World → (ℕ → ℕ) → DjangoPacket → JudgeList → JudgeList × Reply
unfolding on_submission on_termination
on_packet world draw (submission_request priority r) s = on_submission world draw priority r s
on_packet world draw (terminate_submission id) s = on_termination id s
on_packet world draw (disconnect_judge name force) s = (disconnect (by_name name) force s, null)
on_packet world draw (disable_judge name b) s = (update_disable_judge name b s, null)
on_packet world draw malformed s = (s, null)
