-- ===== src/Bridge/Queue/Classes.antt =====
-- The abstract view of the queue: a first-in first-out list for each priority.
use mathlib.Core.Option
use native.Mathlib.Nat.{zero-add}
use study_sys.Prelude.{
  ℕ, zero, suc, ◌+◌, ◌≤◌, ◌<◌, ◌≡◌, refl, Bool, true, false, Option, none, some, List, [], ◌∷◌,
  ◌++◌, arith, ◌==◌, if◌then◌else◌, length,
}
use study_sys.Bridge.Judge.{Judge, Request, can_judge}
use study_sys.Bridge.Queue.{Node, marker, item, empty_queue, insert_before, remove_node, scan}

-- A waiting submission with its handle.
abbrev pub Entry : Type 0
Entry = ℕ × Request

abbrev pub entry_node : Entry → Node
entry_node e = item e.0 e.1

abbrev pub nodes : List Entry → List Node
nodes [] = []
nodes (e ∷ es) = entry_node e ∷ nodes es

-- The queue that holds the classes from priority p on: each class, then its marker.
abbrev pub layout : ℕ → List (List Entry) → List Node
layout p [] = []
layout p (c ∷ cs) = nodes c ++ marker p ∷ layout (suc p) cs

-- To enqueue is to append to the class of the priority.
abbrev pub enqueue : ℕ → Entry → List (List Entry) → List (List Entry)
enqueue p e [] = []
enqueue zero e (c ∷ cs) = (c ++ e ∷ []) ∷ cs
enqueue (suc p) e (c ∷ cs) = c ∷ enqueue p e cs

-- To remove a handle is to drop it from every class.
abbrev pub drop_handle : ℕ → List Entry → List Entry
drop_handle h [] = []
drop_handle h (e ∷ es) = if e.0 == h then drop_handle h es else e ∷ drop_handle h es

abbrev pub drop_everywhere : ℕ → List (List Entry) → List (List Entry)
drop_everywhere h [] = []
drop_everywhere h (c ∷ cs) = drop_handle h c ∷ drop_everywhere h cs

-- The first submission of a class that the judge can take.
abbrev pub first_in : Judge → List Entry → Option Entry
first_in j [] = none
first_in j (e ∷ es) = if can_judge j e.1 then some e else first_in j es

abbrev pub or_else : Option Entry → Option Entry → Option Entry
or_else none o = o
or_else (some e) o = some e

-- The first submission that the judge can take, by priority and then by age.
abbrev pub first_over : Judge → List (List Entry) → Option Entry
first_over j [] = none
first_over j (c ∷ cs) = or_else (first_in j c) (first_over j cs)

insert_before-nodes :
    (p : ℕ) (n : Node) (c : List Entry) (q : List Node)
    → insert_before p n (nodes c ++ q) ≡ Option.map (λ rest. nodes c ++ rest) (insert_before p n q)
unfolding insert_before
insert_before-nodes p n [] q = ground arith
insert_before-nodes p n (e ∷ es) q = ground (arith, insert_before-nodes p n es q)

nodes-snoc :
    (c : List Entry) (e : Entry) (q : List Node)
    → nodes (c ++ e ∷ []) ++ q ≡ nodes c ++ entry_node e ∷ q
nodes-snoc [] e q = refl
nodes-snoc (d ∷ c) e q = rw (nodes-snoc c e q)

insert_before-layout_from :
    (p k : ℕ) (e : Entry) (cs : List (List Entry))
    → p < length cs
    → insert_before (k + p) (entry_node e) (layout k cs) ≡ some (layout k (enqueue p e cs))
unfolding insert_before
insert_before-layout_from p k e [] h = absurd (omega arith)
insert_before-layout_from zero k e (c ∷ cs) h =
    rw (insert_before-nodes (k + zero) (entry_node e) c (marker k ∷ layout (suc k) cs))
      (ground (arith, nodes-snoc c e (marker k ∷ layout (suc k) cs)))
insert_before-layout_from (suc p) k e (c ∷ cs) h =
    rw (insert_before-nodes (k + suc p) (entry_node e) c (marker k ∷ layout (suc k) cs))
      (ground (arith, insert_before-layout_from p (suc k) e cs))

remove_node-nodes :
    (h : ℕ) (c : List Entry) (q : List Node)
    → remove_node h (nodes c ++ q) ≡ nodes (drop_handle h c) ++ remove_node h q
unfolding remove_node
remove_node-nodes h [] q = refl
remove_node-nodes h (e ∷ es) q = ground (arith, remove_node-nodes h es q)

remove_node-layout_from :
    (h k : ℕ) (cs : List (List Entry))
    → remove_node h (layout k cs) ≡ layout k (drop_everywhere h cs)
unfolding remove_node
remove_node-layout_from h k [] = refl
remove_node-layout_from h k (c ∷ cs) = ground (
  arith,
  remove_node-nodes h c (marker k ∷ layout (suc k) cs),
  remove_node-layout_from h (suc k) cs,
)

-- The scan without a reservation, on the nodes of one class.
scan-nodes :
    (j : Judge) (k : ℕ) (c : List Entry) (q : List Node)
    → scan false j k (nodes c ++ q) ≡ or_else (first_in j c) (scan false j k q)
unfolding scan
scan-nodes j k [] q = refl
scan-nodes j k (e ∷ es) q = ground (arith, scan-nodes j k es q)

scan-layout_from :
    (j : Judge) (i k : ℕ) (cs : List (List Entry)) → scan false j i (layout k cs) ≡ first_over j cs
unfolding scan
scan-layout_from j i k [] = refl
scan-layout_from j i k (c ∷ cs) =
    ground (
      arith,
      scan-nodes j i c (marker k ∷ layout (suc k) cs),
      scan-layout_from j (k + 1) (suc k) cs,
    )

scan-nodes_reserved :
    (j : Judge) (k : ℕ) (c : List Entry) (q : List Node)
    → k < 2
    → scan true j k (nodes c ++ q) ≡ or_else (first_in j c) (scan true j k q)
unfolding scan
scan-nodes_reserved j k [] q h = refl
scan-nodes_reserved j k (e ∷ es) q h = ground (arith, scan-nodes_reserved j k es q)

-- Behind the first two classes a reserved judge takes nothing.
scan-late_reserved :
    (j : Judge) (i k : ℕ) (cs : List (List Entry))
    → 2 ≤ i
    → 2 ≤ suc k
    → scan true j i (layout k cs) ≡ none
unfolding scan
scan-late_reserved j i k [] h g = refl
scan-late_reserved j i k ([] ∷ cs) h g =
    scan-late_reserved j (k + 1) (suc k) cs (omega arith) (omega arith)
scan-late_reserved j i k ((e ∷ c) ∷ cs) h g = ground arith

-- The queue that the constructor makes holds four empty classes.
pub empty_queue-layout : empty_queue ≡ layout 0 ([] ∷ [] ∷ [] ∷ [] ∷ [])
unfolding empty_queue
empty_queue-layout = refl

-- With the queue laid out by class, inserting before the marker of a priority appends to the
-- class of that priority and leaves the others alone, for every priority that there is.
pub insert_before-layout :
    (p : ℕ) (e : Entry) (cs : List (List Entry))
    → p < length cs
    → insert_before p (entry_node e) (layout 0 cs) ≡ some (layout 0 (enqueue p e cs))
insert_before-layout p e cs h = rw zero-add at (insert_before-layout_from p 0 e cs h)

-- Removing a node drops its handle from every class and keeps the order of the others.
pub remove_node-layout :
    (h : ℕ) (cs : List (List Entry)) → remove_node h (layout 0 cs) ≡ layout 0 (drop_everywhere h cs)
remove_node-layout h cs = remove_node-layout_from h 0 cs

-- With the queue laid out by class, the loop of `_handle_free_judge` selects the oldest submission
-- of the most urgent class that has one which the judge can take. Where a judge must stay free, it
-- does so among the first two classes only.
pub scan-layout :
    (reserved : Bool) (j : Judge) (a b : List Entry) (cs : List (List Entry))
    → scan reserved j 0 (layout 0 (a ∷ b ∷ cs))
      ≡ first_over j (a ∷ b ∷ (if reserved then [] else cs))
unfolding scan
scan-layout false j a b cs = scan-layout_from j 0 0 (a ∷ b ∷ cs)
scan-layout true j a b cs = ground (
  arith,
  scan-nodes_reserved j 0 a (marker 0 ∷ layout 1 (b ∷ cs)),
  scan-nodes_reserved j 1 b (marker 1 ∷ layout 2 cs),
  scan-late_reserved j 2 2 cs,
)
