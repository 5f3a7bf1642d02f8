-- ===== src/Bridge/JudgeList/Linked.antt =====
-- The map `node_map` and the queue agree, and every method keeps it so.
use study_sys.Prelude.{ℕ, ◌+◌, ◌<◌, ◌≡◌, Bool, false, Option, none, some, List, arith, ◌==◌}
use study_sys.Prelude.Dict.{lookup, insert, delete, lookup-delete, lookup-insert}
use study_sys.Bridge.Judge.{Judge, Request}
use study_sys.Bridge.Queue.{Node, item, insert_before, remove_node, scan}
use study_sys.Bridge.Queue.Spots.{one_if, spots, spots-insert_before, spots-remove_node, scan-spots}
use study_sys.Bridge.JudgeList.State.{JudgeList}

abbrev pub points_to : ℕ → Option ℕ → Bool
points_to h none = false
points_to h (some k) = k == h

-- A submission stands once in the queue under the handle that `node_map` has for it, and under no
-- other; no two submissions share a node; and the next handle is unused.
pub record AreLinked (queue : List Node) (map : List (ℕ × ℕ)) (next : ℕ) : Type 0 where
  pub once : (id h : ℕ) → spots id h queue ≡ one_if (points_to h (lookup id map))
  pub apart : (a b h : ℕ) → lookup a map ≡ some h → lookup b map ≡ some h → a ≡ b
  pub unused : (a h : ℕ) → lookup a map ≡ some h → h < next

abbrev pub IsLinked : JudgeList → Type 0
IsLinked s = AreLinked s.queue s.node_map s.next_handle

pub AreLinked-insert :
    (queue later : List Node) (map : List (ℕ × ℕ)) (next p : ℕ) (r : Request)
    → AreLinked queue map next
    → lookup r.id map ≡ none
    → insert_before p (item next r) queue ≡ some later
    → AreLinked later (insert r.id next map) (next + 1)
AreLinked-insert queue later map next p r inv new e = record {
  once = λ id h. ground (
    arith,
    spots-insert_before id h p next r queue e,
    inv.once id h,
    inv.unused id h,
    lookup-insert r.id id next map,
  );
  apart = λ a b h. ground (
    arith,
    lookup-insert r.id a next map,
    lookup-insert r.id b next map,
    inv.apart a b h,
    inv.unused a h,
    inv.unused b h,
  );
  unused = λ a h. ground (arith, lookup-insert r.id a next map, inv.unused a h);
}

pub AreLinked-remove :
    (queue : List Node) (map : List (ℕ × ℕ)) (next id h : ℕ)
    → AreLinked queue map next
    → lookup id map ≡ some h
    → AreLinked (remove_node h queue) (delete id map) next
AreLinked-remove queue map next id h inv e = record {
  once = λ i k. ground (
    arith,
    spots-remove_node i k h queue,
    inv.once i k,
    lookup-delete id i map,
    inv.apart i id h,
  );
  apart = λ a b k. ground (arith, lookup-delete id a map, lookup-delete id b map, inv.apart a b k);
  unused = λ a k. ground (arith, lookup-delete id a map, inv.unused a k);
}

-- A node that the loop stops at is the one that `node_map` has for its submission.
pub scan-lookup :
    (reserved : Bool) (j : Judge) (p next : ℕ) (queue : List Node) (map : List (ℕ × ℕ)) {h : ℕ}
    {r : Request}
    → AreLinked queue map next
    → scan reserved j p queue ≡ some (h, r)
    → lookup r.id map ≡ some h
scan-lookup reserved j p next queue map {h} {r} inv e =
    ground (arith, scan-spots reserved j p queue e, inv.once r.id h)
