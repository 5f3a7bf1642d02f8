-- ===== src/Course/Visibility.antt =====
-- The access check of one course against the query for the visible ones, and what the scoreboard
-- shows to whom.
use study_sys.Prelude.{
  ℕ, ◌≡◌, ◌↔◌, refl, Bool, true, false, ◌||◌, ◌&&◌, List, [], ◌∷◌, arith, elem, any-append, keep,
  ◌==◌,
}
use study_sys.Viewer.{Viewer, see_private_contest, edit_all_contest}
use study_sys.Course.{
  is_after_participation, Course, editor_ids, started, can_see_full_scoreboard,
  can_see_own_scoreboard, inaccessible, access_check, is_accessible_by, is_live_joinable_by,
  is_spectatable_by, is_listed, get_visible_courses,
}

elem-editor_ids :
    (i : ℕ) (c : Course) → elem i (editor_ids c) ≡ (elem i c.authors || elem i c.curators)
unfolding editor_ids
elem-editor_ids i c = any-append (λ x. x == i) c.authors c.curators

course_listed-eq-is_accessible_by :
    (user : Viewer) (c : Course) → is_listed user c ≡ is_accessible_by user c
unfolding is_listed is_accessible_by
course_listed-eq-is_accessible_by user c = ground (arith, elem-editor_ids user.id c)

-- The query `get_visible_courses` gives a user exactly the courses that `is_accessible_by` lets
-- the user into, in the order of the table.
pub get_visible_courses-eq :
    (user : Viewer) (rows : List Course)
    → get_visible_courses user rows ≡ keep (is_accessible_by user) rows
unfolding get_visible_courses
get_visible_courses-eq user [] = refl
get_visible_courses-eq user (c ∷ rows) =
    ground (arith, course_listed-eq-is_accessible_by user c, get_visible_courses-eq user rows)

-- A user with a role in the course, or a permission for all courses.
abbrev pub has_role : Viewer → Course → Bool
has_role user c =
    user.is_authenticated
    && (user.has_perm see_private_contest
        || user.has_perm edit_all_contest
        || elem user.id (editor_ids c)
        || elem user.id c.testers
        || elem user.id c.spectators)

-- `access_check` raises Inaccessible exactly for a course that is not visible and a user with no
-- role in it; so it never tells such a user whether the course is private.
pub course_check-inaccessible :
    (user : Viewer) (c : Course)
    → (access_check user c ≡ inaccessible) ↔ ((c.is_visible ≡ false) × (has_role user c ≡ false))
unfolding access_check
course_check-inaccessible user c = ground arith

-- Who sees the scoreboard of a course that has not started.
abbrev pub sees_early : Bool → Viewer → Course → Bool
sees_early completed user c =
    user.is_authenticated
    && (user.has_perm see_private_contest
        || user.has_perm edit_all_contest
        || elem user.id (editor_ids c)
        || c.tester_see_scoreboard && elem user.id c.testers
        || elem user.id c.view_course_scoreboard
        || is_after_participation c.scoreboard_visibility && completed)

-- Before a course starts, a user sees its own scoreboard or the full one exactly if the user is
-- authenticated and has a permission for all courses, edits it, tests it where testers see the
-- scoreboard, is on its list for the scoreboard, or has completed it where the scoreboard is for
-- those who have.
pub course_scoreboard_before_start :
    (now : ℕ) (inside completed : Bool) (user : Viewer) (c : Course)
    → started now c ≡ false
    → (can_see_full_scoreboard now completed user c ≡ sees_early completed user c)
      × (can_see_own_scoreboard now inside completed user c ≡ sees_early completed user c)
unfolding can_see_own_scoreboard
course_scoreboard_before_start now inside completed user c early = ground arith

-- Whoever may join a running course live may also spectate it, and is neither an editor nor a
-- tester of it, so that those never compete.
pub course_joinable-spectatable :
    (now : ℕ) (completed : Bool) (user : Viewer) (c : Course)
    → is_live_joinable_by now completed user c ≡ true
    → (is_spectatable_by user c ≡ true)
      × (elem user.id (editor_ids c) ≡ false)
      × (elem user.id c.testers ≡ false)
unfolding is_live_joinable_by is_spectatable_by
course_joinable-spectatable now completed user c joins = ground arith
