-- ===== src/Tests/Problem.antt =====
-- Problems private to an organization, and users of them.
use study_sys.Prelude.{◌≡◌, refl, true, false, [], ◌∷◌, keep}
use study_sys.Viewer.{Viewer}
use study_sys.Problem.{
  Problem, editor_ids, is_editable_by, is_accessible_outside, is_accessible_by,
  get_visible_problems,
}
use study_sys.Problem.Visibility.{get_visible_problems-eq}
use study_sys.Tests.Contest.{user}

abbrev pub sorting : Problem
sorting = record {
  id = 7;
  authors = 10 ∷ [];
  curators = [];
  testers = 11 ∷ [];
  is_public = true;
  is_organization_private = true;
  organizations = 5 ∷ [];
}

abbrev hidden : Problem
hidden = record sorting { is_public = false }

abbrev setter : Viewer
setter = record (user 10 []) { has_perm = λ p. true }

stranger : is_accessible_by false false (user 12 []) sorting ≡ false
unfolding is_accessible_by is_accessible_outside is_editable_by editor_ids
stranger = refl

get_visible_problems-eq_example :
    get_visible_problems (user 12 (5 ∷ [])) (sorting ∷ hidden ∷ [])
    ≡ keep (is_accessible_by false true (user 12 (5 ∷ []))) (sorting ∷ hidden ∷ [])
get_visible_problems-eq_example =
    get_visible_problems-eq (user 12 (5 ∷ [])) (sorting ∷ hidden ∷ []) false (λ p e. refl)
