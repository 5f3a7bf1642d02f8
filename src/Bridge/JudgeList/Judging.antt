-- ===== src/Bridge/JudgeList/Judging.antt =====
-- The method `judge`: it ends, it forgets no submission, and what a failed dispatch leaves behind.
use study_sys.Prelude.{
  ℕ, suc, ◌≡◌, true, false, none, some, arith, if◌then◌else◌, Option-cases, inl, inr,
}
use study_sys.Prelude.Dict.{lookup-insert}
use study_sys.Bridge.Judge.{Request, Outcome}
use study_sys.Bridge.JudgeList.{
  JudgeList, Run, World, judge, choose, hand_over, put_off, known, enroll,
}

-- After a hand-over that failed, the submission counts as being graded.
pub known-hand_over :
    (o : Outcome) (oid : ℕ) (r : Request) (s : JudgeList)
    → known r.id (enroll false oid (hand_over o oid r s).0) ≡ true
unfolding known hand_over enroll
known-hand_over o oid r s = ground (arith, lookup-insert r.id r.id oid s.submission_map)

pub known-hand_over_sent :
    (o : Outcome) (oid : ℕ) (r : Request) (s : JudgeList)
    → known r.id (hand_over o oid r s).0 ≡ true
unfolding known hand_over
known-hand_over_sent o oid r s = ground (arith, lookup-insert r.id r.id oid s.submission_map)

judge-known :
    (fuel : ℕ) (world : World) (draw : ℕ → ℕ) (p : ℕ) (r : Request) (s : JudgeList)
    → known r.id s ≡ true
    → judge (suc fuel) world draw p r s ≡ some (s, none)
unfolding judge
judge-known fuel world draw p r s h = ground arith

-- The new state of `judge`, with no recursion.
abbrev pub judged : World → (ℕ → ℕ) → ℕ → Request → JudgeList → Run
judged world draw p r s = elim (known r.id s) [
  | true ↦ (s, none)
  | false ↦ elim (choose draw p r s) [
    | none ↦ put_off p r s
    | some j ↦
        let (t, done) = hand_over (world j.oid r.id) j.oid r s in
        (if done then t else enroll false j.oid t, none)
  ]
]

-- The method `judge` calls itself at most once: with two units of fuel or more it ends, and the
-- call that follows a failed dispatch changes nothing, since the failed handler still stands in
-- `submission_map` for the submission.
pub judge_ends :
    (fuel : ℕ) (world : World) (draw : ℕ → ℕ) (p : ℕ) (r : Request) (s : JudgeList)
    → judge (suc (suc fuel)) world draw p r s ≡ some (judged world draw p r s)
unfolding judge
judge_ends fuel world draw p r s = elim (Option-cases (choose draw p r s)) [
  | inl nobody ↦ ground arith
  | inr (j, chosen) ↦
      let o = world j.oid r.id in
      ground (
        arith,
        judge-known fuel world draw p r (enroll false j.oid (hand_over o j.oid r s).0),
        known-hand_over o j.oid r s,
      )
]
