-- ===== src/Bridge/Queue.antt =====
-- judge/bridge/judge_list.py: the linked list `queue`, in which four `PriorityMarker` nodes part
-- the waiting submissions by priority. A node of a submission has a handle, its identity.
pub mod Classes
pub mod Spots
use study_sys.Prelude.{
  ℕ, suc, ◌+◌, Bool, true, false, ◌&&◌, Option, none, some, List, [], ◌∷◌, leb, ◌==◌, if◌then◌else◌,
}
use mathlib.Core.Option
use study_sys.Bridge.Judge.{Judge, Request, can_judge}

pub data Node : Type 0 where
  marker : (priority : ℕ) → Node
  item : (handle : ℕ) → Request → Node

-- The class of submissions that are graded again, and those behind it.
abbrev pub rejudge_priority : ℕ
rejudge_priority = 2

-- `JudgeList.priorities`
abbrev pub priorities : ℕ
priorities = 4

-- `queue.append(PriorityMarker(i)) for i in range(4)`
unfoldable pub empty_queue : List Node
empty_queue = marker 0 ∷ marker 1 ∷ marker 2 ∷ marker 3 ∷ []

-- `queue.insert(value, self.priority[p])` puts the node in front of marker p. There is no such
-- marker if p is out of range, and the index raises.
unfoldable pub insert_before : ℕ → Node → List Node → Option (List Node)
insert_before p n [] = none
insert_before p n (marker k ∷ q) =
    if k == p
    then some (n ∷ marker k ∷ q)
    else Option.map (λ rest. marker k ∷ rest) (insert_before p n q)
insert_before p n (item h r ∷ q) = Option.map (λ rest. item h r ∷ rest) (insert_before p n q)

-- `queue.remove(node)`
unfoldable pub remove_node : ℕ → List Node → List Node
remove_node h [] = []
remove_node h (marker k ∷ q) = marker k ∷ remove_node h q
remove_node h (item k r ∷ q) = if k == h then remove_node h q else item k r ∷ remove_node h q

-- The `while node` loop of `_handle_free_judge` up to its dispatch or its `return`. `reserved` is
-- the test that one free judge has to stay back, which no iteration changes.
unfoldable pub scan : Bool → Judge → ℕ → List Node → Option (ℕ × Request)
scan reserved j priority [] = none
scan reserved j priority (marker k ∷ q) = scan reserved j (k + 1) q
scan reserved j priority (item h r ∷ q) =
    if leb rejudge_priority priority && reserved
    then none
    else if can_judge j r
    then some (h, r)
    else scan reserved j priority q
