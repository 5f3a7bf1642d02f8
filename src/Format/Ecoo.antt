-- ===== src/Format/Ecoo.antt =====
-- judge/contest_format/ecoo.py, `update_participation`: the last submission to each problem counts,
-- with bonuses. `worth` is the points of a problem, `unit` how many units one point is, and `end`
-- the distance of the participation's end from its start. The rounding is an argument.
use study_sys.Prelude.{
  sym, ◌∙◌, ap, subst, ℕ, ◌+◌, ◌*◌, ◌-◌, ◌/◌, ◌<◌, ◌≡◌, Bool, true, false, ◌&&◌, Option, some, List,
  [], ◌∷◌, ◌++◌, max, leb, ◌==◌, if◌then◌else◌, keep, length, arith, refl,
}
use study_sys.Grading.{Verdict, ie, ce}
use study_sys.Format.{
  ContestSubmission, ℤ, pos, negsuc, ◌+ℤ◌, scale, of_problem, max_points, max_date,
}

-- The configuration.
pub record Config : Type 0 where
  pub cumtime : Bool
  pub first_ac_bonus : ℕ
  pub time_bonus : ℕ

-- `exclude(submission__result__in=('IE', 'CE'))`
abbrev pub is_kept : Option Verdict → Bool
is_kept (some ie) = false
is_kept (some ce) = false
is_kept _ = true

pub record Entry : Type 0 where
  pub problem : ℕ
  pub time : ℕ
  pub points : ℕ
  pub bonus : ℤ

-- `(end_time - date).total_seconds() // 60 // time_bonus`, rounded down below zero, too; the floor of
-- a quotient of a floor is that by the product.
unfoldable pub whole_steps : (end date step : ℕ) → ℤ
whole_steps end date step =
    if leb date end then pos ((end - date) / step) else negsuc ((date - end - 1) / step)

abbrev pub time_points : Config → (unit end date : ℕ) → ℤ
time_points c unit end date =
    if c.time_bonus == 0 then pos 0 else scale unit (whole_steps end date (60 * c.time_bonus))

abbrev pub first_points : Config → (unit count points worth : ℕ) → ℤ
first_points c unit count points worth =
    if count == 1 && points == worth then pos (c.first_ac_bonus * unit) else pos 0

unfoldable pub bonus_of : Config → (unit worth end count points date : ℕ) → ℤ
unfolding whole_steps
bonus_of c unit worth end count points date =
    if points == 0
    then pos 0
    else first_points c unit count points worth +ℤ time_points c unit end date

-- `Max('points')` over the submissions of the last date.
abbrev pub last_points : List ContestSubmission → ℕ
last_points group = max_points (keep (λ s. s.date == max_date group) group)

abbrev pub make_entry : Config → (unit worth end problem count points date : ℕ) → Entry
make_entry c unit worth end problem count points date = record {
  problem = problem;
  time = date;
  points = points;
  bonus = bonus_of c unit worth end count points date;
}

-- The entry of a problem, from its submissions that are kept.
unfoldable pub entry : Config → (unit worth end problem : ℕ) → List ContestSubmission → Entry
unfolding bonus_of
entry c unit worth end problem group =
    make_entry c unit worth end problem (length group) (last_points group) (max_date group)

abbrev pub kept_of : ℕ → List ContestSubmission → List ContestSubmission
kept_of q subs = of_problem q (keep (λ s. is_kept s.result) subs)

abbrev pub entry_if : (List ContestSubmission → Entry) → List ContestSubmission → List Entry
entry_if f [] = []
entry_if f (s ∷ group) = f (s ∷ group) ∷ []

unfoldable pub entries :
    Config → (ℕ → ℕ) → (unit end : ℕ) → List ℕ → List ContestSubmission → List Entry
unfolding entry
entries c worth unit end [] subs = []
entries c worth unit end (q ∷ order) subs =
    entry_if (entry c unit (worth q) end q) (kept_of q subs) ++ entries c worth unit end order subs

pub record EcooResult : Type 0 where
  pub cumtime : ℕ
  pub score : ℤ
  pub tiebreaker : ℕ
  pub format_data : List Entry

abbrev pub sum_time : List Entry → ℕ
sum_time [] = 0
sum_time (e ∷ es) = e.time + sum_time es

abbrev pub sum_score : List Entry → ℤ
sum_score [] = pos 0
sum_score (e ∷ es) = (pos e.points +ℤ e.bonus) +ℤ sum_score es

-- `ECOOContestFormat.update_participation`
unfoldable pub update_ecoo :
    (ℤ → ℤ) → Config → (ℕ → ℕ) → (unit end : ℕ) → List ℕ → List ContestSubmission → EcooResult
unfolding entries
update_ecoo round c worth unit end order subs =
    let found = entries c worth unit end order subs in
    record {
      cumtime = if c.cumtime then sum_time found else 0;
      score = round (sum_score found);
      tiebreaker = 0;
      format_data = found;
    }

-- No date of a group reaches a later one.
later_only :
    (d : ℕ) (group : List ContestSubmission)
    → max_date group < d
    → keep (λ s. s.date == d) group ≡ []
later_only d [] late = refl
later_only d (s ∷ group) late = ground (arith, late, later_only d group (omega (arith, late)))

only_last :
    (s : ContestSubmission) (group : List ContestSubmission)
    → max_date group < s.date
    → keep (λ x. x.date == max_date (s ∷ group)) (s ∷ group) ≡ s ∷ []
only_last s group late =
    let date : max s.date (max_date group) ≡ s.date = omega (arith, late) in
    subst (λ d. keep (λ x. x.date == d) (s ∷ group) ≡ s ∷ []) (sym date)
      (ground (arith, later_only s.date group late))

-- The entry of a group in which one submission is later than all the others, of which there are some.
last_entry :
    (c : Config) (unit worth end problem : ℕ) (s t : ContestSubmission)
    (group : List ContestSubmission)
    → max_date (t ∷ group) < s.date
    → entry c unit worth end problem (s ∷ t ∷ group) ≡ record {
      problem = problem;
      time = s.date;
      points = s.points;
      bonus = if s.points == 0 then pos 0 else pos 0 +ℤ time_points c unit end s.date;
    }
unfolding entry bonus_of
last_entry c unit worth end problem s t group late =
    let date : max_date (s ∷ t ∷ group) ≡ s.date = omega (arith, late) in
    let alone : keep (λ x. x.date == max_date (s ∷ t ∷ group)) (s ∷ t ∷ group) ≡ s ∷ [] =
      only_last s (t ∷ group) late in
    let points : last_points (s ∷ t ∷ group) ≡ s.points = ap max_points alone ∙ omega arith in
    let many : (length (s ∷ t ∷ group) == 1) ≡ false = ground arith in
    let n = length (s ∷ t ∷ group) in
    (λ i. make_entry c unit worth end problem n (points i) (date i)) ∙ rw (many, bonus_of) refl

kept_of-kept :
    (q : ℕ) (s : ContestSubmission) (subs : List ContestSubmission)
    → is_kept s.result ≡ true
    → (s.problem == q) ≡ true
    → kept_of q (s ∷ subs) ≡ s ∷ kept_of q subs
kept_of-kept q s subs kept same = ground (arith, kept, same)

-- A submission to a problem that is neither IE nor CE, and later than all the others to it that are
-- neither, of which there are some, replaces them: the entry of the problem has its date and its
-- points, whatever the others had, and the bonus for a first submission is gone. The entries of the
-- problems that follow are built from the same submissions.
pub entry_replaced :
    (c : Config) (worth : ℕ → ℕ) (unit end problem : ℕ) (order : List ℕ) (s t : ContestSubmission)
    (subs group : List ContestSubmission)
    → is_kept s.result ≡ true
    → (s.problem == problem) ≡ true
    → kept_of problem subs ≡ t ∷ group
    → max_date (kept_of problem subs) < s.date
    → entries c worth unit end (problem ∷ order) (s ∷ subs)
      ≡ record {
        problem = problem;
        time = s.date;
        points = s.points;
        bonus = if s.points == 0 then pos 0 else pos 0 +ℤ time_points c unit end s.date;
      }
        ∷ entries c worth unit end order (s ∷ subs)
unfolding entries
entry_replaced c worth unit end problem order s t subs group kept same others late =
    let all : kept_of problem (s ∷ subs) ≡ s ∷ t ∷ group =
      kept_of-kept problem s subs kept same ∙ ap (λ g. s ∷ g) others in
    let rest = entries c worth unit end order (s ∷ subs) in
    ap (λ g. entry_if (entry c unit (worth problem) end problem) g ++ rest) all
    ∙ ap (λ e. e ∷ rest)
        (last_entry c unit (worth problem) end problem s t group
          (subst (λ g. max_date g < s.date) others late))
