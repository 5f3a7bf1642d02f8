-- ===== src/Viewer.antt =====
-- The requesting user, as the access checks of the models read it (`request.user` with its
-- `profile`), and the tests on id lists that the models make by queries. Django answers
-- `has_perm`; the answer is a function here.
use study_sys.Prelude.{ℕ, Bool, List, any, elem}

pub data Permission : Type 0 where
  see_private_contest edit_own_contest edit_all_contest : Permission
  see_organization_problem see_private_problem : Permission
  edit_own_problem edit_public_problem edit_all_problem : Permission
  view_all_submission edit_all_post change_blogpost : Permission
  rejudge_submission spam_submission resubmit_other change_ticket : Permission

pub record Viewer : Type 0 where
  pub is_authenticated : Bool
  pub is_staff : Bool
  pub is_superuser : Bool
  pub id : ℕ
  pub has_perm : Permission → Bool
  pub organizations : List ℕ
  pub admin_of : List ℕ
  pub classes : List ℕ

-- `xs.filter(id__in=ys).exists()`
abbrev pub meets : List ℕ → List ℕ → Bool
meets xs ys = any (λ x. elem x ys) xs
