-- ===== src/Contest/Joining/Unique.antt =====
-- The participations of a user in a contest: at most one of each kind.
use mathlib.Core.List.{Memᴰ}
use study_sys.Prelude.{
  ℕ, ◌≤◌, ◌<◌, ◌≡◌, refl, Bool, true, false, none, some, List, [], ◌∷◌, arith, count, Option-cases,
  Bool-cases, inl, inr, sym,
}
use study_sys.Viewer.{Viewer}
use study_sys.Contest.{Contest}
use study_sys.Contest.Participation.{Kind, spectate, live, virtual, Participation, ended}
use study_sys.Contest.Joining.{
  Rows, same_kind, find_kind, last_virtual, create, enter, enter_spectating, join_as,
}

same_kind-eq : (j k : Kind) → same_kind j k ≡ true → j ≡ k
same_kind-eq spectate spectate e = refl
same_kind-eq live live e = refl
same_kind-eq (virtual m) (virtual n) e = ground arith
same_kind-eq spectate live e = cc
same_kind-eq spectate (virtual n) e = cc
same_kind-eq live spectate e = cc
same_kind-eq live (virtual n) e = cc
same_kind-eq (virtual m) spectate e = cc
same_kind-eq (virtual m) live e = cc

abbrev of_kind : Kind → Participation → Bool
of_kind k p = same_kind p.kind k

pub find_kind-mem :
    (k : Kind) (ps : List Participation) {p : Participation}
    → find_kind k ps ≡ some p
    → Memᴰ p ps × (p.kind ≡ k)
unfolding find_kind
find_kind-mem k [] e = cc
find_kind-mem k (q ∷ ps) {p} e = elim (Bool-cases (same_kind q.kind k)) [
  | inl hit ↦
      let same : q ≡ p = ground arith in
      (Memᴰ.head (sym same), rw same at (same_kind-eq q.kind k hit))
  | inr miss ↦ let (m, kind) = find_kind-mem k ps {p = p} (ground arith) in (Memᴰ.tail m, kind)
]

find_kind-none :
    (k : Kind) (ps : List Participation) → find_kind k ps ≡ none → count (of_kind k) ps ≡ 0
unfolding find_kind
find_kind-none k [] e = refl
find_kind-none k (p ∷ ps) e = ground (arith, find_kind-none k ps)

pub count-last_virtual :
    (n : ℕ) (ps : List Participation) → last_virtual ps < n → count (of_kind (virtual n)) ps ≡ 0
unfolding last_virtual
count-last_virtual n [] h = refl
count-last_virtual n (p ∷ ps) h = ground (arith, count-last_virtual n ps)

-- The user has at most one participation of each kind: the constraint `unique_together`.
abbrev pub IsUnique : Rows → Type 0
IsUnique s = (k : Kind) → count (of_kind k) s.rows ≤ 1

pub create-IsUnique :
    (now : ℕ) (user : Viewer) (k : Kind) (s : Rows)
    → IsUnique s
    → count (of_kind k) s.rows ≡ 0
    → IsUnique (create now user k s)
unfolding create
create-IsUnique now user k s unique new j = elim (Bool-cases (same_kind k j)) [
  | inl same ↦ let e = same_kind-eq k j same in ground (arith, unique j)
  | inr other ↦ ground (arith, unique j)
]

enter_spectating-IsUnique :
    (now : ℕ) (user : Viewer) (s : Rows) → IsUnique s → IsUnique (enter_spectating now user s)
unfolding enter_spectating enter
enter_spectating-IsUnique now user s unique = elim (Option-cases (find_kind spectate s.rows)) [
  | inl new ↦
      rw (new, enter_spectating)
        (create-IsUnique now user spectate s unique (find_kind-none spectate s.rows new))
  | inr (p, found) ↦ rw (found, enter_spectating) unique
]

pub join_as-IsUnique :
    (now : ℕ) (user : Viewer) (code : Bool) (c : Contest) (k : Kind) (s : Rows)
    → IsUnique s
    → IsUnique (join_as now user code c k s).1
unfolding join_as enter
join_as-IsUnique now user true c k s unique = elim (Option-cases (find_kind k s.rows)) [
  | inl new ↦ rw (new, join_as) unique
  | inr (p, found) ↦ elim (Bool-cases (ended now c p)) [
    | inl over ↦ rw (found, over, join_as) (enter_spectating-IsUnique now user s unique)
    | inr going ↦ rw (found, going, join_as) unique
  ]
]
join_as-IsUnique now user false c k s unique = elim (Option-cases (find_kind k s.rows)) [
  | inl new ↦ rw (new, join_as) (create-IsUnique now user k s unique (find_kind-none k s.rows new))
  | inr (p, found) ↦ elim (Bool-cases (ended now c p)) [
    | inl over ↦ rw (found, over, join_as) (enter_spectating-IsUnique now user s unique)
    | inr going ↦ rw (found, going, join_as) unique
  ]
]
