-- ===== src/Course/Joining/Rules.antt =====
-- What `join_course` keeps and promises.
use mathlib.Core.List.{Memᴰ}
use study_sys.Prelude.{
  if_split, ℕ, ◌+◌, ◌≡◌, ◌≢◌, refl, Bool, true, false, not, ◌&&◌, ◌||◌, Option, some, arith, elem,
  String, Option-cases, Bool-cases, inl, inr, ◌⊎◌,
}
use study_sys.Viewer.{Viewer}
use study_sys.Course.{Course, editor_ids, started, is_live_joinable_by, is_spectatable_by}
use study_sys.Course as Course
use study_sys.Course.Participation.{Kind, spectate, live, virtual, Participation, ended}
use study_sys.Course.Joining.{
  not_ongoing, banned, access_denied, cannot_enter, Rows, Joined, entered, find_kind, has_completed,
  last_virtual, create, enter, enter_spectating, join_as, requires_access_code, join_course,
}
use study_sys.Course.Joining.Unique.{
  find_kind-mem, count-last_virtual, IsUnique, create-IsUnique, join_as-IsUnique,
}

-- The cases of `join_course`, with what it returns in each.
pub data Branch (now : ℕ) (user : Viewer) (code : Option String) (c : Course) (s : Rows)
    : Joined × Rows → Type 0 where
  refused : (why : Joined) → why ≢ entered → Branch now user code c s (why, s)
  afterwards :
      Course.ended now c ≡ true
      → requires_access_code user code c ≡ false
      → Branch now user code c s (entered, create now user (virtual (last_virtual s.rows + 1)) s)
  during :
      (k : Kind)
      → (k ≡ live) ⊎ (k ≡ spectate)
      → Course.ended now c ≡ false
      → Branch now user code c s (join_as now user (requires_access_code user code c) c k s)

join_course-cases :
    (now : ℕ) (user : Viewer) (code : Option String) (c : Course) (s : Rows)
    → Branch now user code c s (join_course now user code c s)
unfolding join_course
join_course-cases now user code c s =
    let B = Branch now user code c s in
    if_split B (not (started now c) && not (elem user.id (editor_ids c) || elem user.id c.testers))
      (λ _. refused not_ongoing (λ e. cc))
      λ _.
        if_split B (not user.is_superuser && elem user.id c.banned_users)
          (λ _. refused banned (λ e. cc))
          λ _.
            if_split B (Course.ended now c)
              (λ over.
                if_split B (requires_access_code user code c) (λ _. refused access_denied (λ e. cc))
                  (λ free. afterwards over free))
              λ going.
                if_split B (is_live_joinable_by now (has_completed now user c s.rows) user c)
                  (λ _. during live (inl refl) going)
                  λ _.
                    if_split B (is_spectatable_by user c) (λ _. during spectate (inr refl) going)
                      (λ _. refused cannot_enter (λ e. cc))

-- Joining keeps the constraint that a user has at most one participation of each kind in a course,
-- so that creating one never violates it.
pub join_course-IsUnique :
    (now : ℕ) (user : Viewer) (code : Option String) (c : Course) (s : Rows)
    → IsUnique s
    → IsUnique (join_course now user code c s).1
join_course-IsUnique now user code c s unique = go (join_course-cases now user code c s)
  where
    go : {r : Joined × Rows} → Branch now user code c s r → IsUnique r.1
    go (refused why e) = unique
    go (afterwards over free) =
        create-IsUnique now user (virtual (last_virtual s.rows + 1)) s unique
          (count-last_virtual (last_virtual s.rows + 1) s.rows (omega arith))
    go (during k kind going) =
        join_as-IsUnique now user (requires_access_code user code c) c k s unique

-- The current participation is one of the rows, and it has not ended.
abbrev pub IsInside : ℕ → Course → Rows → Type 0
IsInside now c s =
    (p : Participation) × Memᴰ p s.rows × (s.current ≡ some p.id) × (ended now c p ≡ false)

create-IsInside :
    (now : ℕ) (user : Viewer) (k : Kind) (c : Course) (s : Rows)
    → (Course.ended now c ≡ false) ⊎ ((n : ℕ) × (k ≡ virtual n))
    → IsInside now c (create now user k s)
unfolding create ended Course.ended
create-IsInside now user k c s h = (_, Memᴰ.head refl, refl, ground arith)

spectator-going :
    (now : ℕ) (c : Course) (p : Participation)
    → p.kind ≡ spectate
    → Course.ended now c ≡ false
    → ended now c p ≡ false
unfolding ended Course.ended
spectator-going now c p kind going = ground arith

enter_spectating-IsInside :
    (now : ℕ) (user : Viewer) (c : Course) (s : Rows)
    → Course.ended now c ≡ false
    → IsInside now c (enter_spectating now user s)
unfolding enter enter_spectating
enter_spectating-IsInside now user c s going = elim (Option-cases (find_kind spectate s.rows)) [
  | inl new ↦ rw (new, enter_spectating) (create-IsInside now user spectate c s (inl going))
  | inr (p, found) ↦
      let (member, kind) = find_kind-mem spectate s.rows found in
      rw (found, enter_spectating) (p, member, refl, spectator-going now c p kind going)
]

join_as-IsInside :
    (now : ℕ) (user : Viewer) (code : Bool) (c : Course) (k : Kind) (s : Rows)
    → Course.ended now c ≡ false
    → (join_as now user code c k s).0 ≡ entered
    → IsInside now c (join_as now user code c k s).1
unfolding join_as enter
join_as-IsInside now user code c k s going e = elim (Option-cases (find_kind k s.rows)) [
  | inl new ↦
      let free : code ≡ false = ground arith in
      rw (new, free, join_as) (create-IsInside now user k c s (inl going))
  | inr (p, found) ↦ elim (Bool-cases (ended now c p)) [
    | inl over ↦ rw (found, over, join_as) (enter_spectating-IsInside now user c s going)
    | inr open_still ↦
        rw (found, open_still, join_as) (p, (find_kind-mem k s.rows found).0, refl, open_still)
  ]
]

-- Whoever enters a course is then in a participation that has not ended, and that is one of the
-- user's rows.
pub join_course-IsInside :
    (now : ℕ) (user : Viewer) (code : Option String) (c : Course) (s : Rows)
    → (join_course now user code c s).0 ≡ entered
    → IsInside now c (join_course now user code c s).1
join_course-IsInside now user code c s = go (join_course-cases now user code c s)
  where
    go : {r : Joined × Rows} → Branch now user code c s r → r.0 ≡ entered → IsInside now c r.1
    go (refused why e) same = absurd (e same)
    go (afterwards over free) same =
        create-IsInside now user (virtual (last_virtual s.rows + 1)) c s
          (inr (last_virtual s.rows + 1, refl))
    go (during k kind going) same =
        join_as-IsInside now user (requires_access_code user code c) c k s going same
