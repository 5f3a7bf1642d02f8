-- ===== src/Course/Participation.antt =====
-- judge/models/course.py, `CourseParticipation`: when a participation starts and ends, and what a
-- disqualification does. The ids of a live and of a spectating participation, 0 and -1, and the
-- ids from 1 on of virtual ones are constructors.
use study_sys.Prelude.{
  ℕ, ◌+◌, ◌-◌, ◌≤◌, ◌≡◌, ◌↔◌, Bool, true, false, not, ◌&&◌, ◌||◌, Option, none, some, List, ◌∷◌,
  ltb, leb, ◌==◌, if◌then◌else◌, min, arith, elem, keep,
}
use study_sys.Course.{Course}

pub data Kind : Type 0 where
  spectate live : Kind
  virtual : ℕ → Kind

-- -9999, the score of a disqualified participation, and the scores that the formats give.
pub data Score : Type 0 where
  disqualified_score : Score
  scored : ℕ → Score

pub record Participation : Type 0 where
  pub id : ℕ
  pub user : ℕ
  pub real_start : ℕ
  pub score : Score
  pub cumtime : ℕ
  pub is_disqualified : Bool
  pub tiebreaker : ℕ
  pub kind : Kind

abbrev pub is_live : Kind → Bool
is_live live = true
is_live _ = false

abbrev pub is_spectate : Kind → Bool
is_spectate spectate = true
is_spectate _ = false

-- `self.virtual` as a test: -1 counts, too, but `end_time` has returned for it.
abbrev pub is_virtual : Kind → Bool
is_virtual (virtual n) = true
is_virtual _ = false

-- `course.time_limit` as a test: None and zero are false.
abbrev pub has_limit : Option ℕ → Bool
has_limit none = false
has_limit (some n) = not (n == 0)

abbrev pub limit_or : Option ℕ → ℕ → ℕ
limit_or none d = d
limit_or (some n) d = n

abbrev pub is_none : Option ℕ → Bool
is_none none = true
is_none (some n) = false

unfoldable pub start : Course → Participation → ℕ
start c p =
    if is_none c.time_limit && (is_live p.kind || is_spectate p.kind)
    then c.start_time
    else p.real_start

unfoldable pub end_time : Course → Participation → ℕ
end_time c p =
    if is_spectate p.kind
    then c.end_time
    else if is_virtual p.kind
    then if has_limit c.time_limit
      then p.real_start + limit_or c.time_limit 0
      else p.real_start + (c.end_time - c.start_time)
    else if is_none c.time_limit
    then c.end_time
    else min (p.real_start + limit_or c.time_limit 0) c.end_time

unfoldable pub ended : ℕ → Course → Participation → Bool
unfolding end_time
ended now c p = ltb (end_time c p) now

unfoldable pub time_remaining : ℕ → Course → Participation → Option ℕ
unfolding end_time
time_remaining now c p = if leb now (end_time c p) then some (end_time c p - now) else none

-- A participation has time left exactly while it has not ended, and the time left takes `now` to
-- its end.
pub course_ended-time_remaining :
    (now : ℕ) (c : Course) (p : Participation)
    → ((ended now c p ≡ true) ↔ (time_remaining now c p ≡ none))
      × ((d : ℕ) → time_remaining now c p ≡ some d → now + d ≡ end_time c p)
unfolding ended time_remaining
course_ended-time_remaining now c p = (ground arith, λ d e. ground arith)

-- In a course that does not end before it starts, a participation begun within it does not end
-- before it starts, and one that is not virtual starts and ends within the course.
pub course_participation_window :
    (c : Course) (p : Participation)
    → c.start_time ≤ p.real_start
    → p.real_start ≤ c.end_time
    → (start c p ≤ end_time c p)
      × (c.start_time ≤ start c p)
      × (is_virtual p.kind ≡ false → end_time c p ≤ c.end_time)
unfolding start end_time
course_participation_window c p h g = (ground arith, ground arith, λ e. ground arith)

-- A virtual participation lasts for the time limit if there is one, and otherwise as long as the
-- course did, whenever it is begun.
pub course_virtual_window :
    (c : Course) (p : Participation)
    → is_virtual p.kind ≡ true
    → end_time c p
      ≡ start c p
        + (if has_limit c.time_limit then limit_or c.time_limit 0 else c.end_time - c.start_time)
unfolding start end_time
course_virtual_window c p v = ground arith

-- The state that `set_disqualified` touches: the participation, the id of the participation that
-- the user is in, and the users that the course bars.
pub record Standing : Type 0 where
  pub participation : Participation
  pub current_course : Option ℕ
  pub banned_users : List ℕ

-- `update` is `format.update_participation`.
unfoldable pub recompute_results : (Participation → Participation) → Participation → Participation
recompute_results update p =
    let q = update p in
    if q.is_disqualified
    then record q { score = disqualified_score; cumtime = 0; tiebreaker = 0 }
    else q

abbrev pub is_current : ℕ → Option ℕ → Bool
is_current i none = false
is_current i (some j) = j == i

-- Adding to and removing from a many-to-many relation, which holds a user at most once.
abbrev pub discard : ℕ → List ℕ → List ℕ
discard i xs = keep (λ x. not (x == i)) xs

abbrev pub add : ℕ → List ℕ → List ℕ
add i xs = if elem i xs then xs else i ∷ xs

-- Rating the course anew leaves this state alone.
unfoldable pub set_disqualified : (Participation → Participation) → Bool → Standing → Standing
unfolding recompute_results
set_disqualified update b s =
    let p = recompute_results update (record s.participation { is_disqualified = b }) in
    if p.is_disqualified
    then record {
      participation = p;
      current_course = if is_current p.id s.current_course then none else s.current_course;
      banned_users = add p.user s.banned_users;
    }
    else record {
      participation = p;
      current_course = s.current_course;
      banned_users = discard p.user s.banned_users;
    }
