-- ===== src/Ranking/Places.antt =====
-- The ranks of a sorted list: one more than the number of the rows before.
use study_sys.Prelude.{
  ℕ, ◌+◌, Bool, true, false, ◌&&◌, not, Option, none, some, List, [], ◌∷◌, ◌≡◌, refl, arith,
  if◌then◌else◌, inl, inr, Bool-cases, count, all, map, length, ◌∙◌, ap,
}
use study_sys.Ranking.{Key, same_key, is_new, ranker_from, ranker, is_before}

-- No row is before one that stands above it.
abbrev pub is_sorted : List Key → Bool
is_sorted [] = true
is_sorted (k ∷ ks) = all (λ j. not (is_before j k)) ks && is_sorted ks

-- How many rows are strictly before a row.
abbrev pub before : Key → List Key → ℕ
before k ks = count (λ j. is_before j k) ks

abbrev pub place : List Key → Key → ℕ × Key
place ks k = (before k ks + 1, k)

same_key-eq : (a b : Key) → same_key a b ≡ true → a ≡ b
unfolding same_key
same_key-eq a b e =
    let x : a.points ≡ b.points = ground (arith, e) in
    let y : a.cumtime ≡ b.cumtime = ground (arith, e) in
    let z : a.tiebreaker ≡ b.tiebreaker = ground (arith, e) in
    λ i. record { points = x i; cumtime = y i; tiebreaker = z i }

is_before-total : (a b : Key) → same_key a b ≡ false → is_before a b ≡ false → is_before b a ≡ true
unfolding same_key is_before
is_before-total a b differ after = ground (arith, differ, after)

is_before-through :
    (a b c : Key) → is_before b a ≡ false → is_before b c ≡ true → is_before a c ≡ true
unfolding is_before
is_before-through a b c not_after first = ground (arith, not_after, first)

is_before_self : (a b : Key) → same_key a b ≡ true → is_before b a ≡ false
unfolding same_key is_before
is_before_self a b same = ground (arith, same)

is_before_irrefl : (k : Key) → is_before k k ≡ false
unfolding is_before
is_before_irrefl k = ground arith

-- No row of a list comes after the key.
abbrev pub are_above : Key → List Key → Bool
are_above k js = all (λ j. not (is_before k j)) js

before-all :
    (h k : Key) (js : List Key)
    → are_above h js ≡ true
    → is_before h k ≡ true
    → before k js ≡ length js
before-all h k [] above first = refl
before-all h k (j ∷ js) above first =
    let one = is_before-through j h k (ground (arith, above)) first in
    ground (arith, one, before-all h k js (ground (arith, above)) first)

before-none : (k : Key) (js : List Key) → all (λ j. not (is_before j k)) js ≡ true → before k js ≡ 0
before-none k [] e = refl
before-none k (j ∷ js) e = ground (arith, e, before-none k js (ground (arith, e)))

-- What the variables of the loop say after some rows.
record Tells (rows : List Key) (last : Option Key) (rank delta : ℕ) : Type 0 where
  next :
      (k : Key)
      → are_above k rows ≡ true
      → before k rows + 1 ≡ (if is_new k last then rank + delta else rank)
  seen : rank + delta ≡ length rows + 1

abbrev rank_of : ℕ → ℕ → Option Key → Key → ℕ
rank_of rank delta last h = if is_new h last then rank + delta else rank

abbrev delta_of : ℕ → Option Key → Key → ℕ
delta_of delta last h = (if is_new h last then 0 else delta) + 1

Tells-step :
    (rows : List Key) (last : Option Key) (rank delta : ℕ) (h : Key)
    → Tells rows last rank delta
    → are_above h rows ≡ true
    → Tells (h ∷ rows) (some h) (rank_of rank delta last h) (delta_of delta last h)
Tells-step rows last rank delta h t above =
    let seen : rank_of rank delta last h + delta_of delta last h ≡ length rows + 2 =
      ground (arith, t.seen) in
    record {
      seen = omega (arith, seen);
      next = λ k above_k. elim (Bool-cases (same_key k h)) [
        | inl same ↦
            let first = is_before_self k h same in
            let eq = ap (λ x. before x rows) (same_key-eq k h same) in
            ground (arith, same, first, eq, t.next h above)
        | inr differ ↦
            let not_after : is_before k h ≡ false = ground (arith, above_k) in
            let first = is_before-total k h differ not_after in
            ground (arith, differ, first, seen, before-all h k rows above first)
      ];
    }

-- Every row that is to come is below those that have been seen.
abbrev are_below : List Key → List Key → Bool
are_below rows ks = all (λ k. are_above k rows) ks

are_below-next :
    (h : Key) (rows ks : List Key)
    → all (λ k. not (is_before k h)) ks ≡ true
    → are_below rows ks ≡ true
    → are_below (h ∷ rows) ks ≡ true
are_below-next h rows [] a b = refl
are_below-next h rows (k ∷ ks) a b =
    ground (arith, a, b, are_below-next h rows ks (ground (arith, a)) (ground (arith, b)))

-- The places of rows that come after others.
abbrev places : List Key → List Key → List Key → List (ℕ × Key)
places rows all_ks ks = map (λ k. (before k rows + before k all_ks + 1, k)) ks

places-shift :
    (h : Key) (rows rest ks : List Key) → places (h ∷ rows) rest ks ≡ places rows (h ∷ rest) ks
places-shift h rows rest [] = refl
places-shift h rows rest (k ∷ ks) =
    let n : before k (h ∷ rows) + before k rest + 1 ≡ before k rows + before k (h ∷ rest) + 1 =
      omega arith in
    λ i. (n i, k) ∷ places-shift h rows rest ks i

nothing_seen : (ks : List Key) → are_below [] ks ≡ true
nothing_seen [] = refl
nothing_seen (k ∷ ks) = nothing_seen ks

ranker_from-places :
    (rows : List Key) (last : Option Key) (rank delta : ℕ) (ks : List Key)
    → Tells rows last rank delta
    → is_sorted ks ≡ true
    → are_below rows ks ≡ true
    → ranker_from rank delta last ks ≡ places rows ks ks
unfolding ranker_from
ranker_from-places rows last rank delta [] t sorted below = refl
ranker_from-places rows last rank delta (h ∷ ks) t sorted below =
    let above : are_above h rows ≡ true = ground (arith, below) in
    let u = Tells-step rows last rank delta h t above in
    let below_h = are_below-next h rows ks (ground (arith, sorted)) (ground (arith, below)) in
    let rest =
      ranker_from-places (h ∷ rows) (some h) (rank_of rank delta last h) (delta_of delta last h) ks
        u (ground (arith, sorted)) below_h
      ∙ places-shift h rows ks ks in
    let first : rank_of rank delta last h ≡ before h rows + before h (h ∷ ks) + 1 =
      ground
        (arith, t.next h above, is_before_irrefl h, before-none h ks (ground (arith, sorted))) in
    λ i. (first i, h) ∷ rest i

places-all : (all_ks ks : List Key) → places [] all_ks ks ≡ map (place all_ks) ks
places-all all_ks [] = refl
places-all all_ks (k ∷ ks) =
    let n : before k [] + before k all_ks + 1 ≡ before k all_ks + 1 = omega arith in
    λ i. (n i, k) ∷ places-all all_ks ks i

-- On rows sorted as the list of a contest is, by points downwards, then by time and tiebreaker, the
-- rank of every row is one more than the number of all the rows that come strictly before it; rows
-- that are equal in the three share it.
pub ranker-place : (ks : List Key) → is_sorted ks ≡ true → ranker ks 0 ≡ map (place ks) ks
unfolding ranker
ranker-place ks sorted =
    ranker_from-places [] none 0 1 ks (record { next = λ k above. refl; seen = refl }) sorted
      (nothing_seen ks)
    ∙ places-all ks ks
