-- ===== src/Format.antt =====
-- judge/contest_format/{default,legacy_ioi,atcoder,icpc}.py: what `update_participation` makes of
-- the submissions of a participation. A submission's date is its distance in seconds from the
-- participation's start, which it does not precede. Points are whole numbers of the smallest
-- unit; `round` to the contest's `points_precision` is an argument.
-- `order` is the order in which the database gives the problems, each once.
pub mod Scores
pub mod Late
pub mod Ecoo
use study_sys.Prelude.{
  zero, suc, none, leb, ◌-◌, ◌&&◌, min, count, ◌++◌, some, ◌+◌, ◌*◌, ◌∷◌, true, suc, max, ◌==◌,
  false, keep, map, Bool, Option, [], List, if◌then◌else◌, ℕ,
}
use study_sys.Grading.{Verdict, ce, ie}

-- A row of `judge_contestsubmission` with its submission's date and result.
pub record ContestSubmission : Type 0 where
  pub problem : ℕ
  pub points : ℕ
  pub date : ℕ
  pub result : Option Verdict

-- An integer, for `prev`, which can be -1.
pub data ℤ : Type 0 where
  pos : ℕ → ℤ
  negsuc : ℕ → ℤ

abbrev pub of_problem : ℕ → List ContestSubmission → List ContestSubmission
of_problem q subs = keep (λ s. s.problem == q) subs

-- `Max('points')`
abbrev pub max_points : List ContestSubmission → ℕ
max_points [] = 0
max_points (s ∷ subs) = max s.points (max_points subs)

-- `Max('submission__date')`
abbrev pub max_date : List ContestSubmission → ℕ
max_date [] = 0
max_date (s ∷ subs) = max s.date (max_date subs)

-- `MIN(csub.date)` over at least one row
abbrev pub min_date : List ContestSubmission → ℕ
min_date [] = 0
min_date (s ∷ []) = s.date
min_date (s ∷ (t ∷ subs)) = min s.date (min_date (t ∷ subs))

-- `prev = subs.filter(…).count() - 1`
abbrev pub one_less : ℕ → ℤ
one_less zero = negsuc 0
one_less (suc n) = pos n

-- `prev * penalty * 60`, added to the sum of the penalties.
infixl 20 ◌+ℤ◌
abbrev pub ◌+ℤ◌ : ℤ → ℤ → ℤ
pos a +ℤ pos b = pos (a + b)
pos a +ℤ negsuc b = if leb (b + 1) a then pos (a - (b + 1)) else negsuc (b - a)
negsuc a +ℤ pos b = if leb (a + 1) b then pos (b - (a + 1)) else negsuc (a - b)
negsuc a +ℤ negsuc b = negsuc (a + b + 1)

abbrev pub scale : ℕ → ℤ → ℤ
scale k (pos n) = pos (n * k)
scale k (negsuc n) = if k == 0 then pos 0 else negsuc ((n + 1) * k - 1)

-- `exclude(result__isnull=True).exclude(result__in=['IE', 'CE'])`
abbrev pub is_counted : Option Verdict → Bool
is_counted none = false
is_counted (some ie) = false
is_counted (some ce) = false
is_counted (some _) = true

-- A row of the query with `MAX(cs.points)` and the date of the first submission that has them, for
-- the problem that a non-empty group of submissions is for.
pub record Row : Type 0 where
  pub prob : ℕ
  pub points : ℕ
  pub time : ℕ

unfoldable pub best_row : ℕ → List ContestSubmission → Row
best_row q group =
    let best = max_points group in
    record { prob = q; points = best; time = min_date (keep (λ s. s.points == best) group) }

unfoldable pub latest_row : ℕ → List ContestSubmission → Row
latest_row q group = record { prob = q; points = max_points group; time = max_date group }

unfoldable pub row_of : (ℕ → List ContestSubmission → Row) → ℕ → List ContestSubmission → List Row
row_of f q [] = []
row_of f q (s ∷ group) = f q (s ∷ group) ∷ []

-- One row for each problem that has a submission.
unfoldable pub rows :
    (ℕ → List ContestSubmission → Row) → List ℕ → List ContestSubmission → List Row
rows f [] subs = []
rows f (q ∷ order) subs = row_of f q (of_problem q subs) ++ rows f order subs

-- An entry of `format_data`; the formats without a penalty have 0 there.
pub record FormatEntry : Type 0 where
  pub problem : ℕ
  pub time : ℕ
  pub points : ℕ
  pub penalty : ℤ

-- What is stored in the participation.
pub record Result : Type 0 where
  pub cumtime : ℤ
  pub score : ℕ
  pub tiebreaker : ℕ
  pub format_data : List FormatEntry

-- The local variables of the loops.
pub record Sums : Type 0 where
  pub cumtime : ℕ
  pub last : ℕ
  pub penalty : ℤ
  pub points : ℕ
  pub format_data : List FormatEntry

abbrev pub no_sums : Sums
no_sums = record { cumtime = 0; last = 0; penalty = pos 0; points = 0; format_data = [] }

unfoldable pub plain_step : Sums → Row → Sums
plain_step t r = record {
  cumtime = if r.points == 0 then t.cumtime else t.cumtime + r.time;
  last = t.last;
  penalty = t.penalty;
  points = t.points + r.points;
  format_data =
      t.format_data
      ++ (record { problem = r.prob; time = r.time; points = r.points; penalty = pos 0 } ∷ []);
}

abbrev pub loop {ℓ} : {A : Type ℓ} → (Sums → A → Sums) → Sums → List A → Sums
loop f t [] = t
loop f t (x ∷ xs) = loop f (f t x) xs

-- `DefaultContestFormat.update_participation`
unfoldable pub update_default : (ℕ → ℕ) → List ℕ → List ContestSubmission → Result
update_default round order subs =
    let t = loop plain_step no_sums (rows latest_row order subs) in
    record {
      cumtime = pos (max t.cumtime 0);
      score = round t.points;
      tiebreaker = 0;
      format_data = t.format_data;
    }

-- `dt = 0` without `cumtime`
unfoldable pub legacy_row : Bool → Row → Row
legacy_row cumtime r = if cumtime then r else record r { time = 0 }

-- `LegacyIOIContestFormat.update_participation`, with its option `cumtime`.
unfoldable pub update_legacy_ioi : (ℕ → ℕ) → Bool → List ℕ → List ContestSubmission → Result
update_legacy_ioi round cumtime order subs =
    let t = loop plain_step no_sums (map (legacy_row cumtime) (rows best_row order subs)) in
    record {
      cumtime = pos (max t.cumtime 0);
      score = round t.points;
      tiebreaker = 0;
      format_data = t.format_data;
    }

-- `subs.filter(submission__date__lte=time).count() - 1`, or `subs.count()` without points.
unfoldable pub tries : List ContestSubmission → Row → ℤ
tries subs r =
    let group = of_problem r.prob subs in
    if r.points == 0
    then pos (count (λ s. is_counted s.result) group)
    else one_less (count (λ s. is_counted s.result && leb s.date r.time) group)

unfoldable pub prev : ℕ → List ContestSubmission → Row → ℤ
prev penalty subs r = if penalty == 0 then pos 0 else tries subs r

-- The step that the AtCoder and ICPC formats share but for the time: AtCoder takes the largest
-- (`largest`), ICPC the sum.
unfoldable pub penalty_step : Bool → ℕ → List ContestSubmission → Sums → Row → Sums
penalty_step largest penalty subs t r = record {
  cumtime =
      if r.points == 0
      then t.cumtime
      else if largest
      then max t.cumtime r.time
      else t.cumtime + r.time;
  last = if r.points == 0 then t.last else max t.last r.time;
  penalty =
      if r.points == 0 then t.penalty else t.penalty +ℤ scale (penalty * 60) (prev penalty subs r);
  points = t.points + r.points;
  format_data =
      t.format_data
      ++ (record {
        problem = r.prob;
        time = r.time;
        points = r.points;
        penalty = prev penalty subs r;
      }
          ∷ []);
}

-- `AtCoderContestFormat.update_participation`, with its option `penalty`.
unfoldable pub update_atcoder : (ℕ → ℕ) → ℕ → List ℕ → List ContestSubmission → Result
update_atcoder round penalty order subs =
    let t = loop (penalty_step true penalty subs) no_sums (rows best_row order subs) in
    record {
      cumtime = pos t.cumtime +ℤ t.penalty;
      score = round t.points;
      tiebreaker = 0;
      format_data = t.format_data;
    }

-- `ICPCContestFormat.update_participation`, with its option `penalty`.
unfoldable pub update_icpc : (ℕ → ℕ) → ℕ → List ℕ → List ContestSubmission → Result
update_icpc round penalty order subs =
    let t = loop (penalty_step false penalty subs) no_sums (rows best_row order subs) in
    record {
      cumtime = pos t.cumtime +ℤ t.penalty;
      score = round t.points;
      tiebreaker = t.last;
      format_data = t.format_data;
    }
