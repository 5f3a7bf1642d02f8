-- ===== src/Profile.antt =====
-- judge/models/profile.py, `Profile`: the current contest and course of a user, and the codes of
-- two-factor authentication. pyotp's `generate_otp` is an argument.
pub mod Current
pub mod Codes
use study_sys.Prelude.{
  zero, suc, none, str_eq, if◌then◌else◌, ◌-◌, suc, ◌+◌, max, ℕ, Bool, true, false, ◌||◌, not,
  Option, none, some, ◌≡◌, String,
}
use study_sys.Viewer.{Viewer}
use study_sys.Contest as Contest
use study_sys.Course as Course
use study_sys.Contest.Participation as OfContest
use study_sys.Course.Participation as OfCourse

-- A participation with the contest it is for, and the same for courses.
pub record InContest : Type 0 where
  pub contest : Contest.Contest
  pub participation : OfContest.Participation

pub record InCourse : Type 0 where
  pub course : Course.Course
  pub participation : OfCourse.Participation

pub record Profile : Type 0 where
  pub current_contest : Option InContest
  pub current_course : Option InCourse
  pub last_totp_timecode : ℕ

unfoldable pub remove_contest : Profile → Profile
remove_contest p = record p { current_contest = none }

-- `contest.ended or not contest.contest.is_accessible_by(self.user)`
unfoldable pub is_contest_over : ℕ → Viewer → InContest → Bool
is_contest_over now user c =
    OfContest.ended now c.contest c.participation || not (Contest.is_accessible_by user c.contest)

unfoldable pub is_course_over : ℕ → Viewer → InCourse → Bool
is_course_over now user c =
    OfCourse.ended now c.course c.participation || not (Course.is_accessible_by user c.course)

unfoldable pub remove_when : Bool → Profile → Profile
unfolding remove_contest
remove_when true p = remove_contest p
remove_when false p = p

unfoldable pub contest_over : ℕ → Viewer → Option InContest → Bool
contest_over now user none = false
contest_over now user (some c) = is_contest_over now user c

unfoldable pub course_over : ℕ → Viewer → Option InCourse → Bool
course_over now user none = false
course_over now user (some c) = is_course_over now user c

unfoldable pub update_contest : ℕ → Viewer → Profile → Profile
update_contest now user p = remove_when (contest_over now user p.current_contest) p

-- The source calls `remove_contest` here too.
unfoldable pub update_course : ℕ → Viewer → Profile → Profile
update_course now user p = remove_when (course_over now user p.current_course) p

-- The first of `n` timecodes from `t` on whose code is the given one: the `for` loop.
unfoldable pub find_timecode : (ℕ → String) → String → ℕ → ℕ → Option ℕ
find_timecode generate_otp code t zero = none
find_timecode generate_otp code t (suc n) =
    if str_eq code (generate_otp t) then some t else find_timecode generate_otp code (t + 1) n

unfoldable pub accept : Profile → Option ℕ → Profile × Bool
accept p none = (p, false)
accept p (some t) = (record p { last_totp_timecode = t }, true)

-- `min_timecode`: a negative difference is below `last_totp_timecode + 1` as 0 is.
unfoldable pub min_timecode : ℕ → ℕ → Profile → ℕ
min_timecode tolerance now p = max (p.last_totp_timecode + 1) (now - tolerance)

-- `now` is the timecode of the current time.
unfoldable pub check_totp_code : (ℕ → String) → ℕ → ℕ → String → Profile → Profile × Bool
check_totp_code generate_otp tolerance now code p =
    let first = min_timecode tolerance now p in
    accept p (find_timecode generate_otp code first (now + tolerance + 1 - first))
