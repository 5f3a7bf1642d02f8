-- ===== src/Problem/Visibility.antt =====
-- The checks on one problem against the queries over the table.
use study_sys.Prelude.{
  ℕ, ◌≡◌, refl, Bool, true, false, ◌||◌, List, [], ◌∷◌, arith, elem, any-append, keep, ◌==◌,
}
use study_sys.Viewer.{Viewer, edit_own_problem, see_organization_problem, Permission}
use study_sys.Problem.{
  Problem, editor_ids, is_editable_by, is_accessible_outside, is_accessible_by, is_listed,
  get_visible_problems, is_listed_editable, get_editable_problems,
}

-- What Django answers for a user who is not logged in.
abbrev pub IsDjangoViewer : Viewer → Type 0
IsDjangoViewer user = (p : Permission) → user.is_authenticated ≡ false → user.has_perm p ≡ false

elem-problem_editor_ids :
    (i : ℕ) (p : Problem) → elem i (editor_ids p) ≡ (elem i p.authors || elem i p.curators)
unfolding editor_ids
elem-problem_editor_ids i p = any-append (λ x. x == i) p.authors p.curators

problem_listed-eq :
    (user : Viewer) (p : Problem)
    → IsDjangoViewer user
    → is_listed user p ≡ is_accessible_outside user p
unfolding is_listed is_accessible_outside is_editable_by
problem_listed-eq user p anonymous =
    ground (arith, elem-problem_editor_ids user.id p, anonymous see_organization_problem)

-- The query `get_visible_problems` gives a user exactly the problems that `is_accessible_by` lets
-- the user into when it skips the check of the current contest, in the order of the table, if a
-- user who is not logged in has no permissions.
pub get_visible_problems-eq :
    (user : Viewer) (rows : List Problem) (in_current : Bool)
    → IsDjangoViewer user
    → get_visible_problems user rows ≡ keep (is_accessible_by in_current true user) rows
unfolding get_visible_problems is_accessible_by
get_visible_problems-eq user [] c anonymous = refl
get_visible_problems-eq user (p ∷ rows) c anonymous =
    ground
      (arith, problem_listed-eq user p anonymous, get_visible_problems-eq user rows c anonymous)

problem_editable-eq :
    (user : Viewer) (p : Problem)
    → IsDjangoViewer user
    → is_listed_editable user p ≡ is_editable_by user p
unfolding is_listed_editable is_editable_by
problem_editable-eq user p anonymous =
    ground (arith, elem-problem_editor_ids user.id p, anonymous edit_own_problem)

-- The query `get_editable_problems` gives a user exactly the problems that `is_editable_by` lets
-- the user edit, if a user who is not logged in has no permissions.
pub get_editable_problems-eq :
    (user : Viewer) (rows : List Problem)
    → IsDjangoViewer user
    → get_editable_problems user rows ≡ keep (is_editable_by user) rows
unfolding get_editable_problems
get_editable_problems-eq user [] anonymous = refl
get_editable_problems-eq user (p ∷ rows) anonymous =
    ground
      (arith, problem_editable-eq user p anonymous, get_editable_problems-eq user rows anonymous)

editors_log_in :
    (user : Viewer) (p : Problem) → is_editable_by user p ≡ true → user.is_authenticated ≡ true
unfolding is_editable_by
editors_log_in user p edits = ground arith

-- Whoever may edit a problem may see it, in a contest or outside.
pub is_editable_by-accessible :
    (in_current skip : Bool) (user : Viewer) (p : Problem)
    → is_editable_by user p ≡ true
    → is_accessible_by in_current skip user p ≡ true
unfolding is_accessible_by is_accessible_outside
is_editable_by-accessible in_current skip user p edits = ground (arith, editors_log_in user p edits)
