-- ===== src/Bridge/Handler/Departure.antt =====
-- The end of a connection whose judge worked on a submission.
use study_sys.Prelude.{
  subst, ◌∙◌, if_split, sym, ==_iff, ℕ, Bool, true, false, ◌&&◌, not, Option, none, some, List, [],
  ◌∷◌, ◌≡◌, inl, inr, refl, arith, ap, ◌==◌, if◌then◌else◌, any, keep, Option-cases, Bool-cases,
  ==_self,
}
use mathlib.Core.Option.{map as map_option}
use study_sys.Store.{Submission, find_row, anyone, find_row-updated, update_submission}
use study_sys.Bridge.Judge.{Request, Outcome, Judge, is_working, submit}
use study_sys.Bridge.Queue.{scan}
use study_sys.Bridge.JudgeList.{
  World, JudgeList, find_judge, update_judge, set_registered, enroll, enrolled, remove,
  forget_current, wake_last, handle_free_judge, hand_over, dispatch, stays_back,
}
use study_sys.Bridge.JudgeList.Steps.{wake_last-IsSound, forget_current-IsSound, IsSound}
use study_sys.Bridge.JudgeList.Freeing.{handle_free_judge_ok}
use study_sys.Bridge.Handler.{Exception, Connection, Ended, with_judges}
use study_sys.Bridge.Handler.Leaving.{
  go_offline, end_at, working_of, is_named, disconnected, shut_down, end_working, go_on,
  on_disconnect,
}

-- No two handlers have the same name of object.
abbrev pub has_oid : ℕ → List Judge → Bool
has_oid oid js = any (λ j. j.oid == oid) js

abbrev pub are_distinct : List Judge → Bool
are_distinct [] = true
are_distinct (j ∷ js) = not (has_oid j.oid js) && are_distinct js

find_judge-update :
    (oid k : ℕ) (f : Judge → Judge) (js : List Judge)
    → ((j : Judge) → (f j).oid ≡ j.oid)
    → find_judge k (update_judge oid f js)
      ≡ (if oid == k then map_option f (find_judge k js) else find_judge k js)
unfolding find_judge update_judge
find_judge-update oid k f [] same = ground arith
find_judge-update oid k f (j ∷ js) same = ground (arith, same j, find_judge-update oid k f js same)

has_oid-update :
    (oid k : ℕ) (b : Bool) (js : List Judge)
    → has_oid k (update_judge oid (set_registered b) js) ≡ has_oid k js
unfolding update_judge
has_oid-update oid k b [] = refl
has_oid-update oid k b (j ∷ js) = ground (arith, has_oid-update oid k b js)

are_distinct-update :
    (oid : ℕ) (b : Bool) (js : List Judge)
    → are_distinct js ≡ true
    → are_distinct (update_judge oid (set_registered b) js) ≡ true
unfolding update_judge
are_distinct-update oid b [] d = refl
are_distinct-update oid b (j ∷ js) d =
    ground
      (arith, d, has_oid-update oid j.oid b js, are_distinct-update oid b js (ground (arith, d)))

has_oid-found :
    (k : ℕ) (js : List Judge) {j : Judge} → find_judge k js ≡ some j → has_oid k js ≡ true
unfolding find_judge
has_oid-found k [] e = ground (arith, e)
has_oid-found k (i ∷ js) {j} e = ground (arith, e, has_oid-found k js {j = j})

has_oid-apart :
    (m k : ℕ) (js : List Judge) → has_oid m js ≡ false → has_oid k js ≡ true → (m == k) ≡ false
has_oid-apart m k js absent present = elim (Bool-cases (m == k)) [
  | inl same ↦
      let e = ap (λ x. has_oid x js) ((==_iff m k).0 same) in
      absurd (ground (arith, e, absent, present))
  | inr apart ↦ apart
]

-- The only handler in the set is found by its name, and is in the set.
single_found :
    (js : List Judge) (j : Judge)
    → are_distinct js ≡ true
    → keep (λ i. i.registered) js ≡ j ∷ []
    → (find_judge j.oid js ≡ some j) × (j.registered ≡ true)
unfolding find_judge
single_found [] j d e = ground (arith, e)
single_found (i ∷ js) j d e = elim (Bool-cases (i.registered)) [
  | inl member ↦ (ground (arith, member, e), ground (arith, member, e))
  | inr out ↦
      let (found, inside) = single_found js j (ground (arith, d)) (ground (arith, out, e)) in
      let apart = has_oid-apart i.oid j.oid js (ground (arith, d)) (has_oid-found j.oid js found) in
      (ground (arith, apart, found), inside)
]

-- The list that `remove` wakes the last judge of.
abbrev pub taken_out : ℕ → JudgeList → JudgeList
taken_out oid s = enroll false oid (forget_current oid s)

forget_current-handlers : (oid : ℕ) (s : JudgeList) → (forget_current oid s).handlers ≡ s.handlers
unfolding forget_current
forget_current-handlers oid s = ground arith

taken_out-found :
    (oid : ℕ) (s : JudgeList) {j : Judge}
    → find_judge oid s.handlers ≡ some j
    → find_judge oid (taken_out oid s).handlers ≡ some (set_registered false j)
unfolding enroll
taken_out-found oid s {j} found =
    let same =
      find_judge-update oid oid (set_registered false) (forget_current oid s).handlers
        (λ i. refl) in
    rw (same, forget_current-handlers oid s, found, ==_self oid) refl

taken_out-distinct :
    (oid : ℕ) (s : JudgeList)
    → are_distinct s.handlers ≡ true
    → are_distinct (taken_out oid s).handlers ≡ true
unfolding enroll
taken_out-distinct oid s distinct =
    rw (forget_current-handlers oid s) (are_distinct-update oid false s.handlers distinct)

submit-oid : (o : Outcome) (r : Request) (j : Judge) → (submit o r j).oid ≡ j.oid
unfolding submit
submit-oid o r j = ground arith

dispatched_other :
    (o : Outcome) (j : Judge) (h : ℕ) (r : Request) (s : JudgeList) (oid : ℕ)
    → (j.oid == oid) ≡ false
    → find_judge oid (dispatch o j h r s).0.handlers ≡ find_judge oid s.handlers
unfolding dispatch hand_over enroll
dispatched_other o j h r s oid apart =
    let given = find_judge-update j.oid oid (submit o r) s.handlers (submit-oid o r) in
    let taken =
      find_judge-update j.oid oid (set_registered false)
        (update_judge j.oid (submit o r) s.handlers) (λ i. refl) in
    ground (arith, apart, given, taken)

-- Handing a submission to another handler leaves this one.
handle_free_judge-other :
    (world : World) (k oid : ℕ) (s : JudgeList) (j : Judge)
    → find_judge k s.handlers ≡ some j
    → j.oid ≡ k
    → (k == oid) ≡ false
    → find_judge oid (handle_free_judge world k s).0.handlers ≡ find_judge oid s.handlers
unfolding handle_free_judge
handle_free_judge-other world k oid s j found same apart =
    elim (Option-cases (scan (stays_back s) j 0 s.queue)) [
      | inl idle ↦ rw (found, idle, handle_free_judge) refl
      | inr ((h, r), stop) ↦
          rw (found, stop, handle_free_judge)
            (dispatched_other (world k r.id) j h r s oid (rw same apart))
    ]

module _ (world : World) (oid : ℕ) (s : JudgeList) (j : Judge) where
  -- What `remove` leaves of the handler, and that no exception escapes.
  Leaves : JudgeList × Option Exception → Type 0
  Leaves r = (r.1 ≡ none) × (find_judge oid r.0.handlers ≡ some (set_registered false j))

  other_oid :
      (k : Judge)
      → find_judge oid s.handlers ≡ some j
      → find_judge k.oid (taken_out oid s).handlers ≡ some k
      → k.registered ≡ true
      → (k.oid == oid) ≡ false
  other_oid k found stays member = elim (Bool-cases (k.oid == oid)) [
    | inl same ↦
        let gone = taken_out-found oid s found in
        let eq = (==_iff k.oid oid).0 same in
        let both : some k ≡ some (set_registered false j) =
          sym stays ∙ ap (λ x. find_judge x (taken_out oid s).handlers) eq ∙ gone in
        absurd (ground (arith, both, member))
    | inr apart ↦ apart
  ]

  woken-Leaves :
      (js : List Judge)
      → enrolled (taken_out oid s) ≡ js
      → IsSound s
      → are_distinct s.handlers ≡ true
      → find_judge oid s.handlers ≡ some j
      → Leaves (wake_last world js (taken_out oid s))
  unfolding Leaves wake_last
  woken-Leaves [] e sound distinct found = (refl, taken_out-found oid s found)
  woken-Leaves (k ∷ []) e sound distinct found =
      let gone = taken_out-found oid s found in
      let (stays, member) =
        single_found (taken_out oid s).handlers k (taken_out-distinct oid s distinct) e in
      let apart = other_oid k found stays member in
      if_split Leaves (is_working k) (λ _. (refl, gone))
        (λ _. (
          handle_free_judge_ok world k.oid (taken_out oid s) k (forget_current-IsSound oid s sound)
              stays member,
          handle_free_judge-other world k.oid oid (taken_out oid s) k stays refl apart ∙ gone,
        ))
  woken-Leaves (k ∷ l ∷ ls) e sound distinct found = (refl, taken_out-found oid s found)

module _ (j : Judge) (old : Submission) where
  -- The handler is out of the set, and an internal error has ended what it worked on.
  abbrev pub HasEnded : Connection → Type 0
  HasEnded d =
      IsSound d.host.judges
      × (find_judge d.oid d.host.judges.handlers ≡ some (set_registered false j))
      × (find_row j.working d.host.store.submissions ≡ some (shut_down old))

  end_working-HasEnded :
      (d : Connection)
      → IsSound d.host.judges
      → find_judge d.oid d.host.judges.handlers ≡ some (set_registered false j)
      → (j.working == 0) ≡ false
      → find_row j.working d.host.store.submissions ≡ some old
      → HasEnded (end_working d)
  unfolding end_working end_at update_submission
  end_working-HasEnded d sound gone busy row =
      let w : working_of d ≡ j.working = rw (gone, working_of) refl in
      let ended =
        find_row-updated j.working anyone shut_down (λ s. refl) d.host.store.submissions row refl in
      subst (λ n. HasEnded (end_at n d)) (sym w) (rw (busy, end_at) (sound, gone, ended))

  disconnected-HasEnded :
      (d : Connection) (id : ℕ)
      → d.judge ≡ some id
      → IsSound d.host.judges
      → find_judge d.oid d.host.judges.handlers ≡ some (set_registered false j)
      → (j.working == 0) ≡ false
      → find_row j.working d.host.store.submissions ≡ some old
      → let r = go_on (if is_named d then disconnected d else (d, false)) in
        (r.1 ≡ false) × HasEnded r.0
  unfolding disconnected
  disconnected-HasEnded d id row_of sound gone busy row =
      if_split (λ (r : Ended). ((go_on r).1 ≡ false) × HasEnded (go_on r).0) (is_named d)
        (λ _.
          rw (row_of, disconnected)
            (refl, end_working-HasEnded (go_offline id d) sound gone busy row))
        (λ _. (refl, end_working-HasEnded d sound gone busy row))

-- When the connection of a handler ends that works on a submission, in a sound list of handlers with
-- distinct names of objects, and has a row, no exception escapes: the handler leaves the set, the
-- list stays sound, and the row of the submission says that an internal error ended it.
pub on_disconnect-HasEnded :
    (world : World) (c : Connection) (j : Judge) (id : ℕ) (old : Submission)
    → IsSound c.host.judges
    → are_distinct c.host.judges.handlers ≡ true
    → find_judge c.oid c.host.judges.handlers ≡ some j
    → c.judge ≡ some id
    → (j.working == 0) ≡ false
    → find_row j.working c.host.store.submissions ≡ some old
    → let (d, raised) = on_disconnect world c in (raised ≡ false) × HasEnded j old d
unfolding on_disconnect Leaves remove
on_disconnect-HasEnded world c j id old sound distinct found row_of busy row =
    let s = c.host.judges in
    let (ok, gone) =
      woken-Leaves world c.oid s j (enrolled (taken_out c.oid s)) refl sound distinct found in
    let t = (remove world c.oid s).0 in
    let sound_t =
      wake_last-IsSound world (enrolled (taken_out c.oid s)) (taken_out c.oid s)
        (forget_current-IsSound c.oid s sound) in
    rw (ok, on_disconnect)
      (disconnected-HasEnded j old (with_judges t c) id row_of sound_t gone busy row)
