-- ===== src/Bridge/JudgeList/Freeing.antt =====
-- What `_handle_free_judge`, `judge`, `abort` and `register` do to a sound list of judges.
use study_sys.Prelude.{
  ◌==◌, ◌⊎◌, if◌then◌else◌, Bool-cases, ◌∙◌, inr, inl, suc, Option-cases, ap, ℕ, ◌≡◌, refl, Bool,
  true, false, none, some, List, [], ◌∷◌, arith,
}
use study_sys.Prelude.Dict.{lookup, contains, lookup-insert, lookup-delete}
use study_sys.Bridge.Judge.{Judge, Request, Outcome, sent, returns}
use study_sys.Bridge.Queue.{scan}
use study_sys.Bridge.Queue.Classes.{
  Entry, layout, drop_everywhere, first_over, remove_node-layout, scan-layout,
}
use study_sys.Bridge.Queue.Spots.{spots, spots-remove_node}
use study_sys.Bridge.JudgeList.{
  put_off, remove_node, JudgeList, World, judge, choose, hand_over, known, enroll, find_judge,
  dispatch, stays_back, handle_free_judge, disconnect_effects, disconnect, by_object, abort,
  check_priority, request_sent,
}
use study_sys.Bridge.JudgeList.Judging.{judged, judge_ends, known-hand_over, known-hand_over_sent}
use study_sys.Bridge.JudgeList.Linked.{scan-lookup}
use study_sys.Bridge.JudgeList.Steps.{IsSound, insert_before-AreSound}

dispatch_ok :
    (o : Outcome) (j : Judge) (h : ℕ) (r : Request) (s : JudgeList)
    → j.registered ≡ true
    → lookup r.id s.node_map ≡ some h
    → (dispatch o j h r s).1 ≡ none
unfolding dispatch
dispatch_ok o j h r s known e = ground arith

-- In a sound list `_handle_free_judge` raises no exception for a judge in the set, whether its
-- dispatch fails or not: the deletions in `node_map` and in the set find what they delete.
pub handle_free_judge_ok :
    (world : World) (oid : ℕ) (s : JudgeList) (j : Judge)
    → IsSound s
    → find_judge oid s.handlers ≡ some j
    → j.registered ≡ true
    → (handle_free_judge world oid s).1 ≡ none
unfolding handle_free_judge
handle_free_judge_ok world oid s j v found member =
    elim (Option-cases (scan (stays_back s) j 0 s.queue)) [
      | inl idle ↦ rw (found, idle, handle_free_judge) refl
      | inr ((h, r), stop) ↦
          rw (found, stop, handle_free_judge)
            (dispatch_ok (world oid r.id) j h r s member
              (scan-lookup (stays_back s) j 0 s.next_handle s.queue s.node_map v.linked stop))
    ]

-- The classes that a free judge is offered: all, or the first two if it has to stay back.
abbrev pub offered : Bool → List Entry → List Entry → List (List Entry) → List (List Entry)
offered reserved a b cs = a ∷ b ∷ (if reserved then [] else cs)

-- What a successful dispatch changes.
pub record IsHandedOver (oid h : ℕ) (r : Request) (s t : JudgeList) (cs : List (List Entry))
    : Type 0 where
  pub taken : t.queue ≡ layout 0 (drop_everywhere h cs)
  pub grading : lookup r.id t.submission_map ≡ some oid
  pub not_waiting : lookup r.id t.node_map ≡ none
  pub requested : t.effects ≡ request_sent oid r.id ∷ s.effects

find_judge-oid : (oid : ℕ) (js : List Judge) {j : Judge} → find_judge oid js ≡ some j → j.oid ≡ oid
unfolding find_judge
find_judge-oid oid [] e = ground arith
find_judge-oid oid (k ∷ js) {j} e = ground (arith, find_judge-oid oid js {j = j})

dispatch_sent :
    (j : Judge) (h : ℕ) (r : Request) (s : JudgeList) (cs : List (List Entry))
    → s.queue ≡ layout 0 cs
    → IsHandedOver j.oid h r s (dispatch sent j h r s).0 cs
unfolding dispatch
dispatch_sent j h r s cs e = ground (
  arith,
  lookup-insert r.id r.id j.oid s.submission_map,
  lookup-delete r.id r.id s.node_map,
  ap (remove_node h) e ∙ remove_node-layout h cs,
)

-- With the queue laid out by class, and every packet sent, `_handle_free_judge` hands the oldest
-- submission of the most urgent offered class that the judge can take to the judge: its node leaves
-- the queue, it moves from `node_map` to `submission_map`, and its request is the packet sent. If
-- there is no such submission, nothing changes.
pub handle_free_judge-layout :
    (world : World) (oid : ℕ) (s : JudgeList) (j : Judge) (a b : List Entry)
    (cs : List (List Entry))
    → find_judge oid s.handlers ≡ some j
    → s.queue ≡ layout 0 (a ∷ b ∷ cs)
    → ((id : ℕ) → world oid id ≡ sent)
    → let t = (handle_free_judge world oid s).0 in
      ((first_over j (offered (stays_back s) a b cs) ≡ none) × (t ≡ s))
      ⊎ ((h : ℕ) × (r : Request) × (first_over j (offered (stays_back s) a b cs) ≡ some (h, r))
          × IsHandedOver oid h r s t (a ∷ b ∷ cs))
unfolding handle_free_judge
handle_free_judge-layout world oid s j a b cs found laid all =
    let same = find_judge-oid oid s.handlers found in
    let stops = ap (scan (stays_back s) j 0) laid ∙ scan-layout (stays_back s) j a b cs in
    elim (Option-cases (first_over j (offered (stays_back s) a b cs))) [
      | inl nobody ↦ inl (nobody, rw (found, stops ∙ nobody, handle_free_judge) refl)
      | inr ((h, r), first) ↦ inr (
        h,
        r,
        first,
        rw (found, stops ∙ first, handle_free_judge, all r.id, ← same)
            (dispatch_sent j h r s (a ∷ b ∷ cs) laid),
      )
    ]

disconnect_effects-by_object :
    (oid : ℕ) (force : Bool) (js : List Judge) → disconnect_effects (by_object oid) force js ≡ []
unfolding disconnect_effects
disconnect_effects-by_object oid force [] = refl
disconnect_effects-by_object oid force (j ∷ js) =
    ground (arith, disconnect_effects-by_object oid force js)

-- `register` means to disconnect the judges with the same name, but it passes `disconnect` the
-- handler where that compares names: no handler is closed or told to disconnect, whatever the
-- handlers' names are.
pub disconnect-by_object :
    (oid : ℕ) (force : Bool) (s : JudgeList) → disconnect (by_object oid) force s ≡ s
unfolding disconnect
disconnect-by_object oid force s = rw (disconnect_effects-by_object oid force s.handlers)

put_off_remembers :
    (p : ℕ) (r : Request) (s : JudgeList)
    → check_priority p ≡ true
    → IsSound s
    → ((put_off p r s).1 ≡ none) × (known r.id (put_off p r s).0 ≡ true)
unfolding known put_off
put_off_remembers p r s c v =
    rw (insert_before-AreSound s p r c v, put_off)
      (ground (arith, lookup-insert r.id r.id s.next_handle s.node_map))

judged_remembers :
    (world : World) (draw : ℕ → ℕ) (p : ℕ) (r : Request) (s : JudgeList)
    → check_priority p ≡ true
    → IsSound s
    → ((judged world draw p r s).1 ≡ none) × (known r.id (judged world draw p r s).0 ≡ true)
judged_remembers world draw p r s c v = elim (Bool-cases (known r.id s)) [
  | inl old ↦ rw (old, judged) (refl, old)
  | inr new ↦ elim (Option-cases (choose draw p r s)) [
    | inl nobody ↦ rw (new, nobody, judged) (put_off_remembers p r s c v)
    | inr (j, chosen) ↦
        let o = world j.oid r.id in
        ground (arith, known-hand_over o j.oid r s, known-hand_over_sent o j.oid r s)
  ]
]

judge-known :
    (fuel : ℕ) (world : World) (draw : ℕ → ℕ) (p : ℕ) (r : Request) (s : JudgeList)
    → known r.id s ≡ true
    → judge (suc fuel) world draw p r s ≡ some (s, none)
unfolding judge
judge-known fuel world draw p r s e = rw (e, judge) refl

-- In a sound list, `judge` with a priority that `check_priority` accepts raises nothing and leaves
-- the submission in `submission_map` or in `node_map`, also when its dispatch fails, so that a
-- further `judge` of it, with any priority, does nothing.
pub judge_remembers :
    (fuel : ℕ) (world : World) (draw : ℕ → ℕ) (p again : ℕ) (r : Request) (s : JudgeList)
    → check_priority p ≡ true
    → IsSound s
    → (t : JudgeList) × (judge (suc (suc fuel)) world draw p r s ≡ some (t, none))
      × (known r.id t ≡ true)
      × (judge (suc fuel) world draw again r t ≡ some (t, none))
judge_remembers fuel world draw p again r s c v =
    let (done, stays) = judged_remembers world draw p r s c v in
    (
      (judged world draw p r s).0,
      ground (arith, judge_ends fuel world draw p r s),
      stays,
      judge-known fuel world draw again r (judged world draw p r s).0 stays,
    )

-- `judge` gives a submission up when its dispatch fails. If the submission is unknown, `judge`
-- chooses the handler j for it, and j's `submit` does not return, then `judge` leaves the queue and
-- `node_map` as they were, so that no other judge will be handed the submission, while
-- `submission_map` says that j grades it.
pub judge_loses :
    (fuel : ℕ) (world : World) (draw : ℕ → ℕ) (p : ℕ) (r : Request) (s : JudgeList) (j : Judge)
    → known r.id s ≡ false
    → choose draw p r s ≡ some j
    → returns (world j.oid r.id) ≡ false
    → (t : JudgeList) × (judge (suc (suc fuel)) world draw p r s ≡ some (t, none))
      × (t.queue ≡ s.queue)
      × (t.node_map ≡ s.node_map)
      × (lookup r.id t.submission_map ≡ some j.oid)
      × (t.effects ≡ s.effects)
unfolding hand_over enroll
judge_loses fuel world draw p r s j new chosen fails =
    let e = judge_ends fuel world draw p r s in
    (
      enroll false j.oid (hand_over (world j.oid r.id) j.oid r s).0,
      ground arith,
      refl,
      refl,
      ground (arith, lookup-insert r.id r.id j.oid s.submission_map),
      ground arith,
    )

-- In a sound list, `abort` of a submission that waits and is not being graded returns false, takes
-- its node and no other out of the queue, and sends nothing.
pub abort_waiting :
    (id : ℕ) (s : JudgeList)
    → IsSound s
    → contains id s.submission_map ≡ false
    → let (t, aborted) = abort id s in
      (aborted ≡ false)
      × (lookup id t.node_map ≡ none)
      × ((k h : ℕ) → spots k h t.queue ≡ (if k == id then 0 else spots k h s.queue))
      × (t.effects ≡ s.effects)
unfolding abort
abort_waiting id s v idle = elim (Option-cases (lookup id s.node_map)) [
  | inl absent ↦
      (ground arith, ground arith, λ k h. ground (arith, v.linked.once k h), ground arith)
  | inr (n, waits) ↦ (
    ground arith,
    ground (arith, lookup-delete id id s.node_map),
    λ k h.
        ground (arith, v.linked.once k h, spots-remove_node k h n s.queue, v.linked.apart k id h),
    ground arith,
  )
]
