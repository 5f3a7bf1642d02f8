-- ===== src/Course/Joining.antt =====
-- judge/views/courses.py, `join_course`: how a user enters a course, as a contest. The rows are the user's
-- participations in it, and `current` is the participation that the profile points to.
pub mod Rules
pub mod Unique
use study_sys.Prelude.{
  ℕ, suc, ◌+◌, ◌≤◌, ◌<◌, ◌≡◌, ◌≢◌, refl, Bool, true, false, not, ◌&&◌, ◌||◌, Option, none, some,
  List, [], ◌∷◌, arith, elem, str_eq, max, ◌==◌, if◌then◌else◌, String, Option-cases, Bool-cases,
  inl, inr, any, count,
}
use study_sys.Viewer.{Viewer}
use study_sys.Course.{
  Course, editor_ids, started, is_live_joinable_by, is_spectatable_by, is_editable_by,
}
use study_sys.Course as Course
use study_sys.Course.Participation.{
  Kind, spectate, live, virtual, scored, Participation, is_live, end_time, ended,
}

pub record Rows : Type 0 where
  pub rows : List Participation
  pub current : Option ℕ
  pub next_id : ℕ

pub data Joined : Type 0 where
  not_ongoing banned access_denied cannot_enter entered : Joined

abbrev pub same_kind : Kind → Kind → Bool
same_kind spectate spectate = true
same_kind live live = true
same_kind (virtual m) (virtual n) = m == n
same_kind _ _ = false

unfoldable pub find_kind : Kind → List Participation → Option Participation
find_kind k [] = none
find_kind k (p ∷ ps) = if same_kind p.kind k then some p else find_kind k ps

-- `has_completed_course`
unfoldable pub has_completed : ℕ → Viewer → Course → List Participation → Bool
unfolding find_kind
has_completed now user c ps =
    if user.is_authenticated
    then elim (find_kind live ps) [ none ↦ false | some p ↦ ended now c p ]
    else false

-- `Max('virtual')` of the virtual participations, and 0 if there is none
abbrev pub virtual_number : Kind → ℕ
virtual_number (virtual n) = n
virtual_number _ = 0

unfoldable pub last_virtual : List Participation → ℕ
last_virtual [] = 0
last_virtual (p ∷ ps) = max (virtual_number p.kind) (last_virtual ps)

-- The participation is created, and becomes the current one.
unfoldable pub create : ℕ → Viewer → Kind → Rows → Rows
create now user k s = record {
  rows =
      record {
        id = s.next_id;
        user = user.id;
        real_start = now;
        score = scored 0;
        cumtime = 0;
        is_disqualified = false;
        tiebreaker = 0;
        kind = k;
      }
      ∷ s.rows;
  current = some s.next_id;
  next_id = s.next_id + 1;
}

unfoldable pub enter : Participation → Rows → Rows
enter p s = record s { current = some p.id }

-- `get_or_create(virtual=SPECTATE)`, made current
unfoldable pub enter_spectating : ℕ → Viewer → Rows → Rows
enter_spectating now user s = elim (find_kind spectate s.rows) [
  | none ↦ create now user spectate s
  | some p ↦ enter p s
]

-- The participation that the user joins as, while the course runs.
unfoldable pub join_as : ℕ → Viewer → Bool → Course → Kind → Rows → Joined × Rows
join_as now user requires_code c k s = elim (find_kind k s.rows) [
  | none ↦ if requires_code then (access_denied, s) else (entered, create now user k s)
  | some p ↦ if ended now c p then (entered, enter_spectating now user s) else (entered, enter p s)
]

-- `not self.can_edit and course.access_code and access_code != course.access_code`
unfoldable pub requires_access_code : Viewer → Option String → Course → Bool
unfolding is_editable_by
requires_access_code user code c =
    not (is_editable_by user c)
    && not (str_eq c.access_code "")
    && not (elim code [ none ↦ false | some t ↦ str_eq t c.access_code ])

unfoldable pub join_course : ℕ → Viewer → Option String → Course → Rows → Joined × Rows
join_course now user code c s =
    let requires_code = requires_access_code user code c in
    if not (started now c) && not (elem user.id (editor_ids c) || elem user.id c.testers)
    then (not_ongoing, s)
    else if not user.is_superuser && elem user.id c.banned_users
    then (banned, s)
    else if Course.ended now c
    then if requires_code
      then (access_denied, s)
      else (entered, create now user (virtual (last_virtual s.rows + 1)) s)
    else if is_live_joinable_by now (has_completed now user c s.rows) user c
    then join_as now user requires_code c live s
    else if is_spectatable_by user c
    then join_as now user requires_code c spectate s
    else (cannot_enter, s)
