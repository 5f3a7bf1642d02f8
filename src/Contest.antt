-- ===== src/Contest.antt =====
-- judge/models/contest.py, `Contest`: who may see, join and edit a contest and its scoreboard.
-- Times are numbers of seconds, and the cached `_now` is the argument `now`.
pub mod Visibility
pub mod Participation
pub mod Disqualified
pub mod Joining
use study_sys.Prelude.{
  keep, ℕ, ◌-◌, Bool, true, false, ◌&&◌, ◌||◌, not, Option, none, some, List, [], ◌∷◌, ◌++◌, ltb,
  leb, ◌==◌, if◌then◌else◌, elem, String,
}
use study_sys.Viewer.{Viewer, meets, see_private_contest, edit_own_contest, edit_all_contest}

pub data ScoreboardVisibility : Type 0 where
  visible after_contest after_participation hidden : ScoreboardVisibility

-- The fields that the methods below read.
pub record Contest : Type 0 where
  pub id : ℕ
  pub authors : List ℕ
  pub curators : List ℕ
  pub testers : List ℕ
  pub tester_see_scoreboard : Bool
  pub spectators : List ℕ
  pub start_time : ℕ
  pub end_time : ℕ
  pub time_limit : Option ℕ
  pub is_visible : Bool
  pub is_rated : Bool
  pub view_contest_scoreboard : List ℕ
  pub scoreboard_visibility : ScoreboardVisibility
  pub is_private : Bool
  pub private_contestants : List ℕ
  pub is_organization_private : Bool
  pub organizations : List ℕ
  pub limit_join_organizations : Bool
  pub join_organizations : List ℕ
  pub classes : List ℕ
  pub access_code : String
  pub banned_users : List ℕ

-- `author_ids.union(…curators…)`
unfoldable pub editor_ids : Contest → List ℕ
editor_ids c = c.authors ++ c.curators

unfoldable pub started : ℕ → Contest → Bool
started now c = leb c.start_time now

unfoldable pub ended : ℕ → Contest → Bool
ended now c = ltb c.end_time now

unfoldable pub time_before_start : ℕ → Contest → Option ℕ
time_before_start now c = if leb now c.start_time then some (c.start_time - now) else none

unfoldable pub time_before_end : ℕ → Contest → Option ℕ
time_before_end now c = if leb now c.end_time then some (c.end_time - now) else none

abbrev pub hides_until_end : ScoreboardVisibility → Bool
hides_until_end after_contest = true
hides_until_end after_participation = true
hides_until_end _ = false

abbrev pub is_hidden : ScoreboardVisibility → Bool
is_hidden hidden = true
is_hidden _ = false

abbrev pub is_after_participation : ScoreboardVisibility → Bool
is_after_participation after_participation = true
is_after_participation _ = false

unfoldable pub show_scoreboard : ℕ → Contest → Bool
unfolding started ended
show_scoreboard now c =
    if not (started now c)
    then false
    else if hides_until_end c.scoreboard_visibility && not (ended now c)
    then false
    else not (is_hidden c.scoreboard_visibility)

-- `completed` is `has_completed_contest(user)`.
unfoldable pub can_see_full_scoreboard : ℕ → Bool → Viewer → Contest → Bool
unfolding show_scoreboard started editor_ids
can_see_full_scoreboard now completed user c =
    if show_scoreboard now c
    then true
    else if not user.is_authenticated
    then false
    else if user.has_perm see_private_contest || user.has_perm edit_all_contest
    then true
    else if elem user.id (editor_ids c)
    then true
    else if c.tester_see_scoreboard && elem user.id c.testers
    then true
    else if started now c && elem user.id c.spectators
    then true
    else if elem user.id c.view_contest_scoreboard
    then true
    else if is_after_participation c.scoreboard_visibility && completed
    then true
    else false

-- `inside` is `is_in_contest(user)`.
unfoldable pub can_see_own_scoreboard : ℕ → Bool → Bool → Viewer → Contest → Bool
unfolding can_see_full_scoreboard show_scoreboard started
can_see_own_scoreboard now inside completed user c =
    if can_see_full_scoreboard now completed user c
    then true
    else if not (started now c)
    then false
    else if not (show_scoreboard now c) && not inside && not completed
    then false
    else true

-- How `access_check` ends: it returns, or raises one of the two exceptions of the class.
pub data Access : Type 0 where
  accessible inaccessible private_contest : Access

unfoldable pub access_check : Viewer → Contest → Access
unfolding editor_ids
access_check user c =
    let in_org = meets c.organizations user.organizations || meets c.classes user.classes in
    let in_users = elem user.id c.private_contestants in
    if not user.is_authenticated
    then if not c.is_visible
      then inaccessible
      else if c.is_private || c.is_organization_private
      then private_contest
      else accessible
    else if user.has_perm see_private_contest || user.has_perm edit_all_contest
    then accessible
    else if elem user.id (editor_ids c)
    then accessible
    else if elem user.id c.testers
    then accessible
    else if elem user.id c.spectators
    then accessible
    else if not c.is_visible
    then inaccessible
    else if not c.is_private && not c.is_organization_private
    then accessible
    else if elem user.id c.view_contest_scoreboard
    then accessible
    else if not c.is_private && c.is_organization_private
    then if in_org then accessible else private_contest
    else if c.is_private && not c.is_organization_private
    then if in_users then accessible else private_contest
    else if c.is_private && c.is_organization_private
    then if in_org && in_users then accessible else private_contest
    else accessible

unfoldable pub is_accessible_by : Viewer → Contest → Bool
unfolding access_check
is_accessible_by user c = elim (access_check user c) [ accessible ↦ true | _ ↦ false ]

unfoldable pub is_live_joinable_by : ℕ → Bool → Viewer → Contest → Bool
unfolding started editor_ids
is_live_joinable_by now completed user c =
    if not (started now c)
    then false
    else if not user.is_authenticated
    then false
    else if elem user.id (editor_ids c) || elem user.id c.testers
    then false
    else if completed
    then false
    else if c.limit_join_organizations
    then meets c.join_organizations user.organizations
    else true

unfoldable pub is_spectatable_by : Viewer → Contest → Bool
unfolding editor_ids
is_spectatable_by user c =
    if not user.is_authenticated
    then false
    else if elem user.id (editor_ids c) || elem user.id c.testers
    then true
    else if c.limit_join_organizations
    then meets c.join_organizations user.organizations
    else true

unfoldable pub is_editable_by : Viewer → Contest → Bool
unfolding editor_ids
is_editable_by user c =
    if user.has_perm edit_all_contest
    then true
    else if user.has_perm edit_own_contest && elem user.id (editor_ids c)
    then true
    else false

-- The row filter of `get_visible_contests`: the conditions that its `Q` objects state of a row.
unfoldable pub is_listed : Viewer → Contest → Bool
is_listed user c =
    if not user.is_authenticated
    then c.is_visible && not c.is_organization_private && not c.is_private
    else if user.has_perm see_private_contest || user.has_perm edit_all_contest
    then true
    else let org_check = meets c.organizations user.organizations || meets c.classes user.classes in
      let member = elem user.id c.private_contestants in
      c.is_visible
        && (elem user.id c.view_contest_scoreboard
            || not c.is_organization_private && not c.is_private
            || not c.is_organization_private && c.is_private && member
            || c.is_organization_private && not c.is_private && org_check
            || c.is_organization_private && c.is_private && member && org_check)
      || elem user.id c.authors
      || elem user.id c.curators
      || elem user.id c.testers
      || elem user.id c.spectators

-- `get_visible_contests` over the rows of the table
unfoldable pub get_visible_contests : Viewer → List Contest → List Contest
get_visible_contests user rows = keep (is_listed user) rows
