-- ===== src/Profile/Current.antt =====
-- `update_contest` and `update_course`.
use study_sys.Prelude.{ℕ, ◌≡◌, true, false, some, none, arith, Option-cases, inl, inr}
use study_sys.Profile.{
  Viewer, InContest, Profile, remove_when, remove_contest, is_contest_over, contest_over,
  course_over, update_contest, update_course,
}

-- After `update_contest` a current contest has not ended for the user and is open to them, and
-- it is the one before. The current course is left as it is.
pub update_contest-current :
    (now : ℕ) (user : Viewer) (p : Profile)
    → ((c : InContest)
        → (update_contest now user p).current_contest ≡ some c
        → (is_contest_over now user c ≡ false) × (p.current_contest ≡ some c))
      × ((update_contest now user p).current_course ≡ p.current_course)
unfolding update_contest remove_when remove_contest contest_over
update_contest-current now user p = elim (Option-cases p.current_contest) [
  | inl e ↦ ground (arith, e)
  | inr (c, e) ↦ ground (arith, e)
]

-- `update_course` never takes a user out of a course: it leaves the current course as it is. When
-- the course has ended for the user or is closed to them, it takes the user out of the current
-- contest.
pub update_course_removes_contest :
    (now : ℕ) (user : Viewer) (p : Profile)
    → ((update_course now user p).current_course ≡ p.current_course)
      × (course_over now user p.current_course ≡ true
          → (update_course now user p).current_contest ≡ none)
unfolding update_course remove_when remove_contest
update_course_removes_contest now user p = ground arith
