-- ===== src/Tests/Contest.antt =====
-- A contest of one hour, private to an organization, and users of it.
use study_sys.Prelude.{ℕ, ◌≡◌, refl, true, false, none, some, List, [], ◌∷◌, arith, keep}
use study_sys.Viewer.{Viewer}
use study_sys.Contest as Contest
use study_sys.Contest.{
  Contest, visible, inaccessible, private_contest, access_check, is_accessible_by,
  get_visible_contests, started, can_see_full_scoreboard, can_see_own_scoreboard,
  is_live_joinable_by, is_spectatable_by, editor_ids,
}
use study_sys.Contest.Visibility.{get_visible_contests-eq}
use study_sys.Contest.Participation.{Participation, Standing, Kind, live, scored, end_time}
use study_sys.Contest.Disqualified.{LeavesIdentity}
use study_sys.Contest.Joining.{
  has_completed, join_as, Rows, entered, join_contest, requires_access_code,
}
use study_sys.Contest.Joining.Unique.{IsUnique}
use study_sys.Contest.Joining.Rules.{IsInside, join_contest-IsInside}

abbrev pub user : ℕ → List ℕ → Viewer
user id organizations = record {
  is_authenticated = true;
  is_staff = false;
  is_superuser = false;
  id = id;
  has_perm = λ p. false;
  organizations = organizations;
  admin_of = [];
  classes = [];
}

abbrev pub round_one : Contest
round_one = record {
  id = 1;
  authors = 10 ∷ [];
  curators = [];
  testers = 11 ∷ [];
  tester_see_scoreboard = false;
  spectators = [];
  start_time = 1000;
  end_time = 4600;
  time_limit = some 1800;
  is_visible = true;
  is_rated = true;
  view_contest_scoreboard = [];
  scoreboard_visibility = visible;
  is_private = false;
  private_contestants = [];
  is_organization_private = true;
  organizations = 5 ∷ [];
  limit_join_organizations = false;
  join_organizations = [];
  classes = [];
  access_code = "sesame";
  banned_users = 13 ∷ [];
}

abbrev pub part : Kind → Participation
part k = record {
  id = 1;
  user = 12;
  real_start = 2000;
  score = scored 7;
  cumtime = 60;
  is_disqualified = false;
  tiebreaker = 0;
  kind = k;
}

outsider : access_check (user 12 []) round_one ≡ private_contest
unfolding access_check
outsider = refl

end_time_live : end_time round_one (part live) ≡ 3800
unfolding end_time
end_time_live = refl

get_visible_contests-eq_example :
    get_visible_contests (user 12 (5 ∷ [])) (round_one ∷ [])
    ≡ keep (is_accessible_by (user 12 (5 ∷ []))) (round_one ∷ [])
get_visible_contests-eq_example = get_visible_contests-eq (user 12 (5 ∷ [])) (round_one ∷ [])

abbrev rescore : Participation → Participation
rescore p = record p { score = scored 9 }

rescore-LeavesIdentity : LeavesIdentity rescore
rescore-LeavesIdentity = record {
  same_flag = λ p. refl;
  same_user = λ p. refl;
  same_id = λ p. refl;
}

abbrev standing : Standing
standing = record { participation = part live; current_contest = some 1; banned_users = 13 ∷ [] }

abbrev new_rows : Rows
new_rows = record { rows = []; current = none; next_id = 1 }

new_rows-IsUnique : IsUnique new_rows
new_rows-IsUnique k = omega arith

joins : (join_contest 2000 (user 12 []) (some "sesame") round_one new_rows).0 ≡ entered
unfolding join_contest started editor_ids is_live_joinable_by requires_access_code Contest.ended
    has_completed join_as
joins = refl

join_contest-IsInside_example :
    IsInside 2000 round_one (join_contest 2000 (user 12 []) (some "sesame") round_one new_rows).1
join_contest-IsInside_example =
    join_contest-IsInside 2000 (user 12 []) (some "sesame") round_one new_rows joins
