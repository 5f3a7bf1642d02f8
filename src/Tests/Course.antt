-- ===== src/Tests/Course.antt =====
-- A course of one hour, private to an organization, and users of it.
use study_sys.Prelude.{◌≡◌, refl, none, true, false, some, [], ◌∷◌}
use study_sys.Course.{Course, visible}
use study_sys.Course.Participation.{Participation, Kind, scored}
use study_sys.Course as Course
use study_sys.Course.{started, editor_ids, is_live_joinable_by}
use study_sys.Course.Joining.{
  Rows, join_course, requires_access_code, has_completed, join_as, entered,
}
use study_sys.Tests.Contest.{user}

abbrev pub round_one : Course
round_one = record {
  id = 1;
  authors = 10 ∷ [];
  curators = [];
  testers = 11 ∷ [];
  tester_see_scoreboard = false;
  spectators = [];
  start_time = 1000;
  end_time = 4600;
  time_limit = some 1800;
  is_visible = true;
  is_rated = true;
  view_course_scoreboard = [];
  scoreboard_visibility = visible;
  is_private = false;
  private_members = [];
  is_organization_private = true;
  organizations = 5 ∷ [];
  limit_join_organizations = false;
  join_organizations = [];
  classes = [];
  access_code = "sesame";
  banned_users = 13 ∷ [];
}

abbrev pub part : Kind → Participation
part k = record {
  id = 1;
  user = 12;
  real_start = 2000;
  score = scored 7;
  cumtime = 60;
  is_disqualified = false;
  tiebreaker = 0;
  kind = k;
}

abbrev new_rows : Rows
new_rows = record { rows = []; current = none; next_id = 1 }

joins : (join_course 2000 (user 12 []) (some "sesame") round_one new_rows).0 ≡ entered
unfolding join_course started editor_ids is_live_joinable_by requires_access_code Course.ended
    has_completed join_as
joins = refl
