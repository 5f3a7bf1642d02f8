-- ===== src/Bridge/Queue/Spots.antt =====
-- How often a submission stands in the queue under a handle, and what the queue's operations do to
-- that number.
use study_sys.Prelude.{
  ℕ, ◌+◌, ◌<◌, ◌≡◌, Bool, true, ◌&&◌, some, List, [], ◌∷◌, arith, ◌==◌, if◌then◌else◌, Option-cases,
  inl, inr,
}
use study_sys.Bridge.Judge.{Judge, Request, can_judge}
use study_sys.Bridge.Queue.{Node, marker, item, insert_before, remove_node, scan}

abbrev pub one_if : Bool → ℕ
one_if b = if b then 1 else 0

abbrev pub spots : ℕ → ℕ → List Node → ℕ
spots id h [] = 0
spots id h (marker k ∷ q) = spots id h q
spots id h (item k r ∷ q) = one_if (r.id == id && k == h) + spots id h q

pub spots-insert_before :
    (id h p k : ℕ) (r : Request) (q : List Node) {q' : List Node}
    → insert_before p (item k r) q ≡ some q'
    → spots id h q' ≡ one_if (r.id == id && k == h) + spots id h q
unfolding insert_before
spots-insert_before id h p k r [] e = ground arith
spots-insert_before id h p k r (marker m ∷ q) e =
    elim (Option-cases (insert_before p (item k r) q)) [
      | inl absent ↦ ground arith
      | inr (rest, found) ↦ ground (arith, spots-insert_before id h p k r q found)
    ]
spots-insert_before id h p k r (item m t ∷ q) e =
    elim (Option-cases (insert_before p (item k r) q)) [
      | inl absent ↦ ground arith
      | inr (rest, found) ↦ ground (arith, spots-insert_before id h p k r q found)
    ]

pub spots-remove_node :
    (id h k : ℕ) (q : List Node)
    → spots id h (remove_node k q) ≡ (if k == h then 0 else spots id h q)
unfolding remove_node
spots-remove_node id h k [] = ground arith
spots-remove_node id h k (marker m ∷ q) = spots-remove_node id h k q
spots-remove_node id h k (item m r ∷ q) = ground (arith, spots-remove_node id h k q)

-- What the loop stops at stands in the queue, and the judge can take it.
pub scan-spots :
    (reserved : Bool) (j : Judge) (p : ℕ) (q : List Node) {h : ℕ} {r : Request}
    → scan reserved j p q ≡ some (h, r)
    → (0 < spots r.id h q) × (can_judge j r ≡ true)
unfolding scan
scan-spots reserved j p [] e = ground arith
scan-spots reserved j p (marker k ∷ q) e = scan-spots reserved j (k + 1) q e
scan-spots reserved j p (item k t ∷ q) {h} {r} e =
    ground (arith, scan-spots reserved j p q {h = h} {r = r})
