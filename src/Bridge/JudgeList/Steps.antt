-- ===== src/Bridge/JudgeList/Steps.antt =====
-- The calls that the connections make of a `JudgeList`, as steps, and what holds after any number
-- of them.
use study_sys.Prelude.{
  false, Bool, String, Option, Bool-cases, inr, inl, Option-cases, ℕ, zero, suc, ◌≡◌, refl, true,
  none, some, List, [], ◌∷◌, arith, length, ◌∙◌, ap,
}
use study_sys.Prelude.Dict.{contains, lookup, delete}
use study_sys.Bridge.Judge.{Judge, Request, Outcome}
use study_sys.Bridge.Queue.{empty_queue, Node, item, insert_before, remove_node, scan, priorities}
use study_sys.Bridge.Queue.Classes.{
  Entry, layout, enqueue, drop_everywhere, insert_before-layout, remove_node-layout,
}
use study_sys.Bridge.JudgeList.{
  init, forget_current, choose, known, judge, Exception, on_judge_free, stays_back, remove, Target,
  disconnect, update_disable_judge, update_problems, find_judge, register, enroll, hand_over, abort,
  wake_last, handle_free_judge, World, JudgeList, put_off, dispatch, check_priority,
}
use study_sys.Bridge.JudgeList.Judging.{judged, judge_ends}
use study_sys.Bridge.JudgeList.Linked.{scan-lookup, AreLinked, AreLinked-insert, AreLinked-remove}

-- The queue is four classes parted by their markers, and `node_map` agrees with it.
pub record AreSound (queue : List Node) (map : List (ℕ × ℕ)) (next : ℕ) : Type 0 where
  pub linked : AreLinked queue map next
  pub classes : List (List Entry)
  pub four : length classes ≡ priorities
  pub laid_out : queue ≡ layout 0 classes

abbrev pub IsSound : JudgeList → Type 0
IsSound s = AreSound s.queue s.node_map s.next_handle

length-enqueue : (p : ℕ) (e : Entry) (cs : List (List Entry)) → length (enqueue p e cs) ≡ length cs
length-enqueue p e [] = refl
length-enqueue zero e (c ∷ cs) = refl
length-enqueue (suc p) e (c ∷ cs) = ap suc (length-enqueue p e cs)

length-drop_everywhere :
    (h : ℕ) (cs : List (List Entry)) → length (drop_everywhere h cs) ≡ length cs
length-drop_everywhere h [] = refl
length-drop_everywhere h (c ∷ cs) = ap suc (length-drop_everywhere h cs)

AreSound-remove :
    (queue : List Node) (map : List (ℕ × ℕ)) (next id h : ℕ)
    → AreSound queue map next
    → lookup id map ≡ some h
    → AreSound (remove_node h queue) (delete id map) next
AreSound-remove queue map next id h v e = record {
  linked = AreLinked-remove queue map next id h v.linked e;
  classes = drop_everywhere h v.classes;
  four = length-drop_everywhere h v.classes ∙ v.four;
  laid_out = ap (remove_node h) v.laid_out ∙ remove_node-layout h v.classes;
}

-- A priority that `check_priority` lets through has a marker.
pub insert_before-AreSound :
    (s : JudgeList) (p : ℕ) (r : Request)
    → check_priority p ≡ true
    → (v : IsSound s)
    → insert_before p (item s.next_handle r) s.queue
      ≡ some (layout 0 (enqueue p (s.next_handle, r) v.classes))
unfolding check_priority
insert_before-AreSound s p r c v =
    rw v.laid_out (insert_before-layout p (s.next_handle, r) v.classes (ground (arith, v.four)))

put_off-IsSound :
    (s : JudgeList) (p : ℕ) (r : Request)
    → check_priority p ≡ true
    → lookup r.id s.node_map ≡ none
    → IsSound s
    → IsSound (put_off p r s).0
unfolding put_off
put_off-IsSound s p r c new v =
    let e = insert_before-AreSound s p r c v in
    rw (e, put_off)
      (record {
        linked = AreLinked-insert s.queue _ s.node_map s.next_handle p r v.linked new e;
        classes = enqueue p (s.next_handle, r) v.classes;
        four = length-enqueue p (s.next_handle, r) v.classes ∙ v.four;
        laid_out = refl;
      })

dispatch-IsSound :
    (o : Outcome) (j : Judge) (h : ℕ) (r : Request) (s : JudgeList)
    → lookup r.id s.node_map ≡ some h
    → IsSound s
    → IsSound (dispatch o j h r s).0
unfolding dispatch
dispatch-IsSound o j h r s e v =
    ground (arith, AreSound-remove s.queue s.node_map s.next_handle r.id h v e)

-- What the loop of `_handle_free_judge` stops at is known to `node_map`.
handle_free_judge-IsSound :
    (world : World) (oid : ℕ) (s : JudgeList)
    → IsSound s
    → IsSound (handle_free_judge world oid s).0
unfolding handle_free_judge
handle_free_judge-IsSound world oid s v = elim (Option-cases (find_judge oid s.handlers)) [
  | inl absent ↦ rw (absent, handle_free_judge) v
  | inr (j, found) ↦ elim (Option-cases (scan (stays_back s) j 0 s.queue)) [
    | inl idle ↦ rw (found, idle, handle_free_judge) v
    | inr ((h, r), stop) ↦
        rw (found, stop, handle_free_judge)
          (dispatch-IsSound (world oid r.id) j h r s
            (scan-lookup (stays_back s) j 0 s.next_handle s.queue s.node_map v.linked stop) v)
  ]
]

abort-IsSound : (id : ℕ) (s : JudgeList) → IsSound s → IsSound (abort id s).0
unfolding abort
abort-IsSound id s v = elim (Option-cases (lookup id s.node_map)) [
  | inl absent ↦ ground arith
  | inr (h, waits) ↦ ground (arith, AreSound-remove s.queue s.node_map s.next_handle id h v waits)
]

judged-IsSound :
    (world : World) (draw : ℕ → ℕ) (p : ℕ) (r : Request) (s : JudgeList)
    → check_priority p ≡ true
    → IsSound s
    → IsSound (judged world draw p r s).0
unfolding hand_over enroll
judged-IsSound world draw p r s c v = elim (Bool-cases (known r.id s)) [
  | inl old ↦ rw (old, judged) v
  | inr new ↦ elim (Option-cases (choose draw p r s)) [
    | inl nobody ↦
        rw (new, nobody, judged) (put_off-IsSound s p r c (unfold known in ground arith) v)
    | inr (j, chosen) ↦ ground arith
  ]
]

pub wake_last-IsSound :
    (world : World) (js : List Judge) (s : JudgeList) → IsSound s → IsSound (wake_last world js s).0
unfolding wake_last
wake_last-IsSound world [] s v = v
wake_last-IsSound world (j ∷ []) s v = ground (arith, handle_free_judge-IsSound world j.oid s v)
wake_last-IsSound world (j ∷ k ∷ ks) s v = v

pub forget_current-IsSound :
    (oid : ℕ) (s : JudgeList) → IsSound s → IsSound (enroll false oid (forget_current oid s))
unfolding enroll forget_current
forget_current-IsSound oid s v = elim (Option-cases (find_judge oid s.handlers)) [
  | inl absent ↦ ground arith
  | inr (j, found) ↦ ground arith
]

on_judge_free-IsSound :
    (world : World) (oid id : ℕ) (s : JudgeList)
    → IsSound s
    → IsSound (on_judge_free world oid id s).0
unfolding on_judge_free
on_judge_free-IsSound world oid id s v = elim (Bool-cases (contains id s.submission_map)) [
  | inl held ↦ rw (held, on_judge_free) (handle_free_judge-IsSound world oid _ v)
  | inr lost ↦ rw (lost, on_judge_free) v
]

-- One call of a method. `world` and `draw` are chosen anew for each.
pub data Step (s : JudgeList) : JudgeList → Type 0 where
  registers : (world : World) (oid : ℕ) → Step s (register world oid s).0
  updates_problems : (world : World) (oid : ℕ) → Step s (update_problems world oid s).0
  disables : (name : Option String) (b : Bool) → Step s (update_disable_judge name b s)
  disconnects : (target : Target) (force : Bool) → Step s (disconnect target force s)
  removes : (world : World) (oid : ℕ) → Step s (remove world oid s).0
  frees : (world : World) (oid id : ℕ) → Step s (on_judge_free world oid id s).0
  aborts : (id : ℕ) → Step s (abort id s).0
  judges :
      (world : World) (draw : ℕ → ℕ) (p : ℕ) (r : Request) (e : Option Exception) (t : JudgeList)
      → check_priority p ≡ true
      → judge 2 world draw p r s ≡ some (t, e)
      → Step s t

pub data Reach (s : JudgeList) : JudgeList → Type 0 where
  here : Reach s s
  next : {t u : JudgeList} → Reach s t → Step t u → Reach s u

Step-IsSound : {s t : JudgeList} → Step s t → IsSound s → IsSound t
Step-IsSound {s} (registers world oid) v =
    unfold register enroll disconnect in handle_free_judge-IsSound world oid _ v
Step-IsSound {s} (updates_problems world oid) v =
    unfold update_problems in handle_free_judge-IsSound world oid s v
Step-IsSound {s} (disables n b) v = unfold update_disable_judge in v
Step-IsSound {s} (disconnects target force) v = unfold disconnect in v
Step-IsSound {s} (removes world oid) v =
    unfold remove in wake_last-IsSound world _ _ (forget_current-IsSound oid s v)
Step-IsSound {s} (frees world oid id) v = on_judge_free-IsSound world oid id s v
Step-IsSound {s} (aborts id) v = abort-IsSound id s v
Step-IsSound {s} (judges world draw p r e t c h) v =
    let done : (judged world draw p r s).0 ≡ t = cc (judge_ends 0 world draw p r s) in
    rw done at (judged-IsSound world draw p r s c v)

-- After any calls of the methods, whatever becomes of the dispatches, the queue still consists of
-- four classes in front of their markers, and `node_map` has exactly the waiting submissions, each
-- with the handle of its one node.
pub Reach-IsSound : {s t : JudgeList} → IsSound s → Reach s t → IsSound t
Reach-IsSound v here = v
Reach-IsSound v (next r st) = Step-IsSound st (Reach-IsSound v r)

-- What the constructor makes is sound.
pub init-IsSound : (handlers : List Judge) → IsSound (init handlers)
unfolding init empty_queue
init-IsSound handlers = record {
  linked = record { once = λ id h. refl; apart = λ a b h p q. cc; unused = λ a h p. cc };
  classes = [] ∷ [] ∷ [] ∷ [] ∷ [];
  four = refl;
  laid_out = refl;
}
