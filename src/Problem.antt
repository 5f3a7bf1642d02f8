-- ===== src/Problem.antt =====
-- judge/models/problem.py, `Problem`: who may see and edit a problem, one at a time and in the
-- queries over the table.
pub mod Visibility
pub mod Submitting
use study_sys.Prelude.{
  ℕ, Bool, true, false, ◌&&◌, ◌||◌, not, List, ◌++◌, Option, none, some, ◌==◌, if◌then◌else◌, elem,
  keep, any,
}
use study_sys.Viewer.{
  Viewer, meets, see_organization_problem, see_private_problem, edit_own_problem,
  edit_public_problem, edit_all_problem, rejudge_submission,
}

-- The fields that the methods below read.
pub record Problem : Type 0 where
  pub id : ℕ
  pub authors : List ℕ
  pub curators : List ℕ
  pub testers : List ℕ
  pub is_public : Bool
  pub is_organization_private : Bool
  pub organizations : List ℕ

-- `author_ids.union(…curators…)`
unfoldable pub editor_ids : Problem → List ℕ
editor_ids p = p.authors ++ p.curators

unfoldable pub is_editable_by : Viewer → Problem → Bool
unfolding editor_ids
is_editable_by user p =
    if not user.is_authenticated
    then false
    else if not (user.has_perm edit_own_problem)
    then false
    else if user.has_perm edit_all_problem || user.has_perm edit_public_problem && p.is_public
    then true
    else if elem user.id (editor_ids p)
    then true
    else if p.is_organization_private && meets p.organizations user.admin_of
    then true
    else false

-- The part of `is_accessible_by` that does not depend on the user's current contest.
unfoldable pub is_accessible_outside : Viewer → Problem → Bool
unfolding is_editable_by editor_ids
is_accessible_outside user p =
    if p.is_public && not p.is_organization_private
    then true
    else if p.is_public && user.has_perm see_organization_problem
    then true
    else if p.is_public && user.is_authenticated && meets p.organizations user.organizations
    then true
    else if not user.is_authenticated
    then false
    else if user.has_perm see_private_problem
    then true
    else if is_editable_by user p || elem user.id (editor_ids p)
    then true
    else if elem user.id p.testers
    then true
    else false

-- `in_current` says whether the user's current contest, if there is one, has the problem.
unfoldable pub is_accessible_by : Bool → Bool → Viewer → Problem → Bool
unfolding is_accessible_outside
is_accessible_by in_current skip_contest_problem_check user p =
    if not skip_contest_problem_check && user.is_authenticated && in_current
    then true
    else is_accessible_outside user p

unfoldable pub is_subs_manageable_by : Viewer → Problem → Bool
unfolding is_editable_by
is_subs_manageable_by user p =
    user.is_staff && user.has_perm rejudge_submission && is_editable_by user p

-- `organization_filter_q`
abbrev pub organization_filter : List ℕ → Problem → Bool
organization_filter orgs p = p.is_organization_private && meets p.organizations orgs

-- `q_add_author_curator_tester`
abbrev pub has_part : Viewer → Problem → Bool
has_part user p = elem user.id p.authors || elem user.id p.curators || elem user.id p.testers

-- The row filter of `get_public_problems`.
abbrev pub is_open : Problem → Bool
is_open p = p.is_public && not p.is_organization_private

-- The row filter of `get_visible_problems`.
unfoldable pub is_listed : Viewer → Problem → Bool
is_listed user p =
    let own = user.has_perm edit_own_problem in
    let public = own && user.has_perm edit_public_problem in
    let every = own && user.has_perm edit_all_problem in
    let open_to_user =
      if user.has_perm see_organization_problem || public
      then p.is_public
      else p.is_public
        && (not p.is_organization_private || organization_filter user.organizations p) in
    let administered =
      if own then open_to_user || organization_filter user.admin_of p else open_to_user in
    if not user.is_authenticated
    then is_open p
    else if user.has_perm see_private_problem || every
    then true
    else administered || has_part user p

unfoldable pub get_visible_problems : Viewer → List Problem → List Problem
get_visible_problems user rows = keep (is_listed user) rows

-- The row filter of `get_editable_problems`.
unfoldable pub is_listed_editable : Viewer → Problem → Bool
is_listed_editable user p =
    if not (user.has_perm edit_own_problem)
    then false
    else if user.has_perm edit_all_problem
    then true
    else elem user.id p.authors
      || elem user.id p.curators
      || p.is_organization_private && meets p.organizations user.admin_of
      || user.has_perm edit_public_problem && p.is_public

unfoldable pub get_editable_problems : Viewer → List Problem → List Problem
get_editable_problems user rows = keep (is_listed_editable user) rows
