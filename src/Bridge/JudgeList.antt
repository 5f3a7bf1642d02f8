-- ===== src/Bridge/JudgeList.antt =====
-- judge/bridge/judge_list.py: `JudgeList`, which hands submissions to the connected judges. A
-- method that mutates the object returns the new state; one that can let an exception escape
-- returns it beside the state that it leaves behind. Every method runs under the lock of the
-- object, so each is one step.
pub mod State
pub mod Linked
pub mod Judging
pub mod Choice
pub mod Steps
pub mod Freeing
use study_sys.Prelude.{
  ℕ, zero, suc, ◌+◌, Bool, true, false, ◌&&◌, ◌||◌, not, Option, none, some, List, [], ◌∷◌, leb,
  ltb, ◌==◌, if◌then◌else◌, length, keep, count, String, map, ◌++◌,
}
use study_sys.Prelude.Dict.{lookup, insert, delete, contains}
use study_sys.Bridge.Judge.{
  Judge, Request, Outcome, submit, returns, can_judge, is_free, is_working, same_name,
}
use study_sys.Bridge.Queue.{
  Node, item, rejudge_priority, priorities, insert_before, remove_node, scan,
}
unfoldable pub use State.*

-- How calls of `submit` go, by the handler and the submission.
abbrev pub World : Type 0
World = (oid id : ℕ) → Outcome

abbrev pub is_candidate : Request → Judge → Bool
is_candidate r j = j.registered && can_judge j r

abbrev pub counts_free : Judge → Bool
counts_free j = j.registered && is_free j

unfoldable pub count_not_disabled : JudgeList → ℕ
count_not_disabled s = count (λ j. j.registered && not j.is_disabled) s.handlers

-- The test of `_handle_free_judge` that the last free judge is kept for urgent submissions.
unfoldable pub stays_back : JudgeList → Bool
unfolding count_not_disabled
stays_back s = ltb 1 (count_not_disabled s) && leb (count counts_free s.handlers) 1

-- `self.submission_map[id] = judge`, then `judge.submit(…)`. The second part says whether
-- `submit` returned.
unfoldable pub hand_over : Outcome → ℕ → Request → JudgeList → JudgeList × Bool
unfolding update_judge submit returns
hand_over o oid r s = (
  record s {
    handlers = update_judge oid (submit o r) s.handlers;
    submission_map = insert r.id oid s.submission_map;
    effects = if returns o then request_sent oid r.id ∷ s.effects else s.effects;
  },
  returns o,
)

-- What `_handle_free_judge` does with the node that its loop stops at.
unfoldable pub dispatch : Outcome → Judge → ℕ → Request → JudgeList → Run
unfolding hand_over remove_node enroll
dispatch o j handle r s =
    let (t, done) = hand_over o j.oid r s in
    if done
    then (
      record t { queue = remove_node handle t.queue; node_map = delete r.id t.node_map },
      if contains r.id t.node_map then none else some key_error,
    )
    else if j.registered
    then (enroll false j.oid t, none)
    else (t, some key_error)

unfoldable pub handle_free_judge : World → ℕ → JudgeList → Run
unfolding find_judge scan stays_back dispatch
handle_free_judge world oid s = elim (find_judge oid s.handlers) [
  | none ↦ (s, none)
  | some j ↦ elim (scan (stays_back s) j 0 s.queue) [
    | none ↦ (s, none)
    | some (handle, r) ↦ dispatch (world oid r.id) j handle r s
  ]
]

-- `judge` passes the handler itself where `disconnect` expects a name.
pub data Target : Type 0 where
  by_name : Option String → Target
  by_object : ℕ → Target

-- `judge.name == judge_id`: a name is never equal to a handler.
unfoldable pub names : Target → Judge → Bool
unfolding same_name
names (by_name n) j = same_name j.name n
names (by_object oid) j = false

unfoldable pub disconnect_effects : Target → Bool → List Judge → List Effect
unfolding names
disconnect_effects target force [] = []
disconnect_effects target force (j ∷ js) =
    let rest = disconnect_effects target force js in
    if j.registered && names target j
    then (if force then closed j.oid else disconnect_sent j.oid) ∷ rest
    else rest

unfoldable pub disconnect : Target → Bool → JudgeList → JudgeList
unfolding disconnect_effects
disconnect target force s = record s {
  effects = disconnect_effects target force s.handlers ++ s.effects;
}

unfoldable pub register : World → ℕ → JudgeList → Run
unfolding disconnect enroll
register world oid s =
    handle_free_judge world oid (enroll true oid (disconnect (by_object oid) true s))

unfoldable pub update_problems : World → ℕ → JudgeList → Run
update_problems world oid s = handle_free_judge world oid s

abbrev pub set_disabled : Option String → Bool → Judge → Judge
set_disabled n b j = if j.registered && same_name j.name n then record j { is_disabled = b } else j

unfoldable pub update_disable_judge : Option String → Bool → JudgeList → JudgeList
unfolding same_name
update_disable_judge n b s = record s { handlers = map (set_disabled n b) s.handlers }

-- `self.judges` as it is iterated.
abbrev pub enrolled : JudgeList → List Judge
enrolled s = keep (λ j. j.registered) s.handlers

-- The end of `remove`: a single judge that is left, and idle, has nothing to stay back for.
unfoldable pub wake_last : World → List Judge → JudgeList → Run
unfolding is_working
wake_last world (j ∷ []) s = if is_working j then (s, none) else handle_free_judge world j.oid s
wake_last world _ s = (s, none)

-- The entry of the submission that the handler grades, if it grades one, is dropped.
unfoldable pub forget_current : ℕ → JudgeList → JudgeList
unfolding find_judge
forget_current oid s = elim (find_judge oid s.handlers) [
  | none ↦ s
  | some j ↦
      if j.working == 0 then s else record s { submission_map = delete j.working s.submission_map }
]

unfoldable pub remove : World → ℕ → JudgeList → Run
unfolding forget_current enroll
remove world oid s =
    let t = enroll false oid (forget_current oid s) in wake_last world (enrolled t) t

abbrev pub set_idle : Judge → Judge
set_idle j = record j { working = 0 }

unfoldable pub on_judge_free : World → ℕ → ℕ → JudgeList → Run
unfolding update_judge
on_judge_free world oid id s =
    if contains id s.submission_map
    then handle_free_judge world oid (record s {
      submission_map = delete id s.submission_map;
      handlers = update_judge oid set_idle s.handlers;
    })
    else (s, some key_error)

unfoldable pub abort : ℕ → JudgeList → JudgeList × Bool
unfolding remove_node
abort id s = elim (lookup id s.submission_map) [
  | some oid ↦ (record s { effects = terminate_sent oid ∷ s.effects }, true)
  | none ↦ elim (lookup id s.node_map) [
    | none ↦ (s, false)
    | some handle ↦
        (record s { queue = remove_node handle s.queue; node_map = delete id s.node_map }, false)
  ]
]

unfoldable pub check_priority : ℕ → Bool
check_priority priority = ltb priority priorities

-- `min(available, key=lambda judge: (judge.load, random()))`; `draw` is what `random` returns for
-- each handler, and the first of several least handlers is taken.
abbrev pub key_lt : (ℕ → ℕ) → Judge → Judge → Bool
key_lt draw a b = ltb a.load b.load || a.load == b.load && ltb (draw a.oid) (draw b.oid)

unfoldable pub least_loaded : (ℕ → ℕ) → List Judge → Option Judge
least_loaded draw [] = none
least_loaded draw (j ∷ js) = elim (least_loaded draw js) [
  | none ↦ some j
  | some k ↦ some (if key_lt draw k j then k else j)
]

abbrev pub candidates : Request → JudgeList → List Judge
candidates r s = keep (is_candidate r) s.handlers

abbrev pub available : Request → JudgeList → List Judge
available r s = keep is_free (candidates r s)

-- The judge that `judge` chooses, if there is one that need not stay back.
unfoldable pub choose : (ℕ → ℕ) → ℕ → Request → JudgeList → Option Judge
choose draw priority r s =
    if ltb 1 (length (candidates r s))
      && length (available r s) == 1
      && leb rejudge_priority priority
    then none
    else least_loaded draw (available r s)

unfoldable pub put_off : ℕ → Request → JudgeList → Run
unfolding insert_before
put_off priority r s = elim (insert_before priority (item s.next_handle r) s.queue) [
  | none ↦ (s, some index_error)
  | some q ↦ (
    record s {
      queue = q;
      next_handle = s.next_handle + 1;
      node_map = insert r.id s.next_handle s.node_map;
    },
    none,
  )
]

-- `submission_map` or `node_map` has the submission.
unfoldable pub known : ℕ → JudgeList → Bool
known id s = contains id s.submission_map || contains id s.node_map

-- The method `judge`. It calls itself after a failed dispatch, so it takes fuel; `none` means that
-- the fuel ran out.
unfoldable pub judge : ℕ → World → (ℕ → ℕ) → ℕ → Request → JudgeList → Option Run
judge zero world draw priority r s = none
judge (suc fuel) world draw priority r s = elim (known r.id s) [
  | true ↦ some (s, none)
  | false ↦ elim (choose draw priority r s) [
    | none ↦ some (put_off priority r s)
    | some j ↦
        let (t, done) = hand_over (world j.oid r.id) j.oid r s in
        let again = judge fuel world draw priority r (enroll false j.oid t) in
        if done then some (t, none) else again
  ]
]
