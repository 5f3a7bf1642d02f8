-- ===== src/Contest/Joining/Rules.antt =====
-- What `join_contest` keeps and promises.
use mathlib.Core.List.{Memᴰ}
use study_sys.Prelude.{
  ap, if_split, ℕ, ◌+◌, ◌≡◌, ◌≢◌, refl, Bool, true, false, not, ◌&&◌, ◌||◌, Option, none, some, [],
  arith, elem, String, Option-cases, Bool-cases, inl, inr, ◌⊎◌,
}
use study_sys.Viewer.{Viewer}
use study_sys.Contest.{Contest, editor_ids, started, is_live_joinable_by, is_spectatable_by}
use study_sys.Contest as Contest
use study_sys.Contest.Participation.{Kind, spectate, live, virtual, Participation, ended}
use study_sys.Contest.Joining.{
  not_ongoing, banned, access_denied, cannot_enter, Rows, Joined, entered, find_kind, has_completed,
  last_virtual, create, enter, enter_spectating, join_as, requires_access_code, join_contest,
}
use study_sys.Contest.Joining.Unique.{
  find_kind-mem, count-last_virtual, IsUnique, create-IsUnique, join_as-IsUnique,
}

-- The cases of `join_contest`, with what it returns in each.
pub data Branch (now : ℕ) (user : Viewer) (code : Option String) (c : Contest) (s : Rows)
    : Joined × Rows → Type 0 where
  refused : (why : Joined) → why ≢ entered → Branch now user code c s (why, s)
  afterwards :
      Contest.ended now c ≡ true
      → requires_access_code user code c ≡ false
      → Branch now user code c s (entered, create now user (virtual (last_virtual s.rows + 1)) s)
  during :
      (k : Kind)
      → (k ≡ live) ⊎ (k ≡ spectate)
      → Contest.ended now c ≡ false
      → Branch now user code c s (join_as now user (requires_access_code user code c) c k s)

join_contest-cases :
    (now : ℕ) (user : Viewer) (code : Option String) (c : Contest) (s : Rows)
    → Branch now user code c s (join_contest now user code c s)
unfolding join_contest
join_contest-cases now user code c s =
    let B = Branch now user code c s in
    if_split B (not (started now c) && not (elem user.id (editor_ids c) || elem user.id c.testers))
      (λ _. refused not_ongoing (λ e. cc))
      λ _.
        if_split B (not user.is_superuser && elem user.id c.banned_users)
          (λ _. refused banned (λ e. cc))
          λ _.
            if_split B (Contest.ended now c)
              (λ over.
                if_split B (requires_access_code user code c) (λ _. refused access_denied (λ e. cc))
                  (λ free. afterwards over free))
              λ going.
                if_split B (is_live_joinable_by now (has_completed now user c s.rows) user c)
                  (λ _. during live (inl refl) going)
                  λ _.
                    if_split B (is_spectatable_by user c) (λ _. during spectate (inr refl) going)
                      (λ _. refused cannot_enter (λ e. cc))

-- Joining keeps the constraint that a user has at most one participation of each kind in a contest,
-- so that creating one never violates it.
pub join_contest-IsUnique :
    (now : ℕ) (user : Viewer) (code : Option String) (c : Contest) (s : Rows)
    → IsUnique s
    → IsUnique (join_contest now user code c s).1
join_contest-IsUnique now user code c s unique = go (join_contest-cases now user code c s)
  where
    go : {r : Joined × Rows} → Branch now user code c s r → IsUnique r.1
    go (refused why e) = unique
    go (afterwards over free) =
        create-IsUnique now user (virtual (last_virtual s.rows + 1)) s unique
          (count-last_virtual (last_virtual s.rows + 1) s.rows (omega arith))
    go (during k kind going) =
        join_as-IsUnique now user (requires_access_code user code c) c k s unique

-- The current participation is one of the rows, and it has not ended.
abbrev pub IsInside : ℕ → Contest → Rows → Type 0
IsInside now c s =
    (p : Participation) × Memᴰ p s.rows × (s.current ≡ some p.id) × (ended now c p ≡ false)

create-IsInside :
    (now : ℕ) (user : Viewer) (k : Kind) (c : Contest) (s : Rows)
    → (Contest.ended now c ≡ false) ⊎ ((n : ℕ) × (k ≡ virtual n))
    → IsInside now c (create now user k s)
unfolding create ended Contest.ended
create-IsInside now user k c s h = (_, Memᴰ.head refl, refl, ground arith)

spectator-going :
    (now : ℕ) (c : Contest) (p : Participation)
    → p.kind ≡ spectate
    → Contest.ended now c ≡ false
    → ended now c p ≡ false
unfolding ended Contest.ended
spectator-going now c p kind going = ground arith

enter_spectating-IsInside :
    (now : ℕ) (user : Viewer) (c : Contest) (s : Rows)
    → Contest.ended now c ≡ false
    → IsInside now c (enter_spectating now user s)
unfolding enter enter_spectating
enter_spectating-IsInside now user c s going = elim (Option-cases (find_kind spectate s.rows)) [
  | inl new ↦ rw (new, enter_spectating) (create-IsInside now user spectate c s (inl going))
  | inr (p, found) ↦
      let (member, kind) = find_kind-mem spectate s.rows found in
      rw (found, enter_spectating) (p, member, refl, spectator-going now c p kind going)
]

join_as-IsInside :
    (now : ℕ) (user : Viewer) (code : Bool) (c : Contest) (k : Kind) (s : Rows)
    → Contest.ended now c ≡ false
    → (join_as now user code c k s).0 ≡ entered
    → IsInside now c (join_as now user code c k s).1
unfolding join_as enter
join_as-IsInside now user code c k s going e = elim (Option-cases (find_kind k s.rows)) [
  | inl new ↦
      let free : code ≡ false = ground arith in
      rw (new, free, join_as) (create-IsInside now user k c s (inl going))
  | inr (p, found) ↦ elim (Bool-cases (ended now c p)) [
    | inl over ↦ rw (found, over, join_as) (enter_spectating-IsInside now user c s going)
    | inr open_still ↦
        rw (found, open_still, join_as) (p, (find_kind-mem k s.rows found).0, refl, open_still)
  ]
]

-- Whoever enters a contest is then in a participation that has not ended, and that is one of the
-- user's rows.
pub join_contest-IsInside :
    (now : ℕ) (user : Viewer) (code : Option String) (c : Contest) (s : Rows)
    → (join_contest now user code c s).0 ≡ entered
    → IsInside now c (join_contest now user code c s).1
join_contest-IsInside now user code c s = go (join_contest-cases now user code c s)
  where
    go : {r : Joined × Rows} → Branch now user code c s r → r.0 ≡ entered → IsInside now c r.1
    go (refused why e) same = absurd (e same)
    go (afterwards over free) same =
        create-IsInside now user (virtual (last_virtual s.rows + 1)) c s
          (inr (last_virtual s.rows + 1, refl))
    go (during k kind going) same =
        join_as-IsInside now user (requires_access_code user code c) c k s going same

join_as-fresh :
    (now : ℕ) (user : Viewer) (code : Bool) (c : Contest) (k : Kind) (s : Rows)
    → code ≡ true
    → s.rows ≡ []
    → ((join_as now user code c k s).0 ≢ entered) × ((join_as now user code c k s).1 ≡ s)
unfolding join_as find_kind
join_as-fresh now user true c k s asked fresh =
    let new : find_kind k s.rows ≡ none = ap (find_kind k) fresh in
    rw (new, join_as) (λ e. cc, refl)
join_as-fresh now user false c k s asked fresh = absurd (cc)

-- A user whom the contest bars, and who is no superuser, does not enter it; whoever is refused
-- leaves the rows and the current participation as they were.
pub join_contest-barred :
    (now : ℕ) (user : Viewer) (code : Option String) (c : Contest) (s : Rows)
    → user.is_superuser ≡ false
    → elem user.id c.banned_users ≡ true
    → ((join_contest now user code c s).0 ≢ entered) × ((join_contest now user code c s).1 ≡ s)
unfolding join_contest
join_contest-barred now user code c s plain barred =
    elim (Bool-cases
      (not (started now c) && not (elem user.id (editor_ids c) || elem user.id c.testers))) [
        | inl early ↦ rw (early, join_contest) (λ e. cc, refl)
        | inr late ↦ rw (late, plain, barred, join_contest) (λ e. cc, refl)
      ]

-- Without the access code that the contest asks for, a user who has no participation in it yet
-- gets none.
pub join_contest-code :
    (now : ℕ) (user : Viewer) (code : Option String) (c : Contest) (s : Rows)
    → requires_access_code user code c ≡ true
    → s.rows ≡ []
    → ((join_contest now user code c s).0 ≢ entered) × ((join_contest now user code c s).1 ≡ s)
join_contest-code now user code c s asked fresh = go (join_contest-cases now user code c s)
  where
    go : {r : Joined × Rows} → Branch now user code c s r → (r.0 ≢ entered) × (r.1 ≡ s)
    go (refused why e) = (e, refl)
    go (afterwards over free) = absurd (cc)
    go (during k kind going) = join_as-fresh now user _ c k s asked fresh
