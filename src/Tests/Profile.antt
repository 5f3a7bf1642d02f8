-- ===== src/Tests/Profile.antt =====
-- A user in a contest, and codes that are the timecode's parity.
use study_sys.Prelude.{
  if◌then◌else◌, ℕ, ◌≡◌, some, true, false, String, ◌<◌, ◌≤◌, ◌+◌, str_eq, ◌%◌, ◌==◌,
}
use study_sys.Contest.Participation.{live}
use study_sys.Profile.{Profile, check_totp_code}
use study_sys.Profile.Codes.{check_totp_code_sound}
use study_sys.Tests.Contest.{round_one, part}
use study_sys.Tests.Course as OfCourse
use study_sys.Course.Participation as CourseParticipation

abbrev pub member : Profile
member = record {
  current_contest = some (record { contest = round_one; participation = part live });
  current_course = some (record {
    course = OfCourse.round_one;
    participation = OfCourse.part CourseParticipation.live;
  });
  last_totp_timecode = 40;
}

abbrev pub parity : ℕ → String
parity t = if t % 2 == 0 then "even" else "odd"

check_totp_code_sound_example :
    let after = check_totp_code parity 1 41 "odd" member in
    let t = after.0.last_totp_timecode in
    (after.1 ≡ true → (40 < t) × (t ≤ 41 + 1) × (41 ≤ t + 1) × (str_eq "odd" (parity t) ≡ true))
    × (after.1 ≡ false → after.0 ≡ member)
check_totp_code_sound_example = check_totp_code_sound parity 1 41 "odd" member
