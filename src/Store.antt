-- ===== src/Store.antt =====
-- The tables that the site and the bridge share: judge/models/submission.py, `Submission` and
-- `SubmissionTestCase`, and the updates by queries.
use study_sys.Prelude.{
  inr, inl, Bool-cases, refl, ◌++◌, arith, ◌≡◌, ℕ, Bool, true, false, ◌&&◌, not, Option, none, some,
  List, [], ◌∷◌, ◌==◌, if◌then◌else◌, keep, any, String,
}
use mathlib.Core.Option.{map as map_option}
use study_sys.Grading.{Verdict, TestCase}

-- `Submission.STATUS`
pub data Status : Type 0 where
  queued processing grading done internal_error compile_error aborted : Status

-- A row of `Submission`, with the points of its problem and whether the problem gives parts of them.
pub record Submission : Type 0 where
  pub id : ℕ
  pub status : Status
  pub result : Option Verdict
  pub points : Option ℕ
  pub time : Option ℕ
  pub memory : Option ℕ
  pub case_points : ℕ
  pub case_total : ℕ
  pub error : Option String
  pub current_testcase : ℕ
  pub batch : Bool
  pub is_pretested : Bool
  pub judged_on : Option ℕ
  pub partial : Bool
  pub worth : ℕ

-- A row of `SubmissionTestCase`.
pub record CaseRow : Type 0 where
  pub submission : ℕ
  pub test_case : TestCase

pub record Store : Type 0 where
  pub submissions : List Submission
  pub cases : List CaseRow

-- `Submission.objects.filter(id=id, …).update(…)`
unfoldable pub update_rows :
    ℕ → (Submission → Bool) → (Submission → Submission) → List Submission → List Submission
update_rows id p f [] = []
update_rows id p f (s ∷ ss) = (if s.id == id && p s then f s else s) ∷ update_rows id p f ss

-- `Submission.objects.filter(id=id, …)` as a test: how many rows an update counts.
abbrev pub has_row : ℕ → (Submission → Bool) → List Submission → Bool
has_row id p ss = any (λ s. s.id == id && p s) ss

-- `Submission.objects.get(id=id)`
unfoldable pub find_row : ℕ → List Submission → Option Submission
find_row id [] = none
find_row id (s ∷ ss) = if s.id == id then some s else find_row id ss

abbrev pub anyone : Submission → Bool
anyone s = true

unfoldable pub update_submission : ℕ → (Submission → Submission) → Store → Store
unfolding update_rows
update_submission id f t = record t { submissions = update_rows id anyone f t.submissions }

-- `SubmissionTestCase.objects.filter(submission_id=id).delete()`
unfoldable pub delete_cases : ℕ → Store → Store
delete_cases id t = record t { cases = keep (λ c. not (c.submission == id)) t.cases }

-- The test cases of a submission.
unfoldable pub cases_of : ℕ → List CaseRow → List TestCase
cases_of id [] = []
cases_of id (c ∷ cs) = if c.submission == id then c.test_case ∷ cases_of id cs else cases_of id cs

-- What an update leaves of the row of a submission.
pub find_row-update :
    (id j : ℕ) (f : Submission → Submission) (ss : List Submission)
    → ((s : Submission) → (f s).id ≡ s.id)
    → find_row j (update_rows id anyone f ss)
      ≡ (if id == j then map_option f (find_row j ss) else find_row j ss)
unfolding find_row update_rows
find_row-update id j f [] same = ground arith
find_row-update id j f (s ∷ ss) same = ground (arith, same s, find_row-update id j f ss same)

-- The rows of other submissions stay.
pub find_row-other :
    (id j : ℕ) (p : Submission → Bool) (f : Submission → Submission) (ss : List Submission)
    → ((s : Submission) → (f s).id ≡ s.id)
    → (id == j) ≡ false
    → find_row j (update_rows id p f ss) ≡ find_row j ss
unfolding find_row update_rows
find_row-other id j p f [] same e = refl
find_row-other id j p f (s ∷ ss) same e =
    ground (arith, e, same s, find_row-other id j p f ss same e)

pub cases_of-delete :
    (id j : ℕ) (cs : List CaseRow)
    → (id == j) ≡ false
    → cases_of j (keep (λ c. not (c.submission == id)) cs) ≡ cases_of j cs
unfolding cases_of
cases_of-delete id j [] e = refl
cases_of-delete id j (c ∷ cs) e = ground (arith, e, cases_of-delete id j cs e)

pub cases_of-append :
    (j : ℕ) (cs ds : List CaseRow) → cases_of j (cs ++ ds) ≡ cases_of j cs ++ cases_of j ds
unfolding cases_of
cases_of-append j [] ds = refl
cases_of-append j (c ∷ cs) ds = ground (arith, cases_of-append j cs ds)

module _ (id : ℕ) (p : Submission → Bool) (f : Submission → Submission)
    (same : (s : Submission) → (f s).id ≡ s.id) where
  -- A query that the row of the submission passes finds it.
  pub has_row-found :
      (ss : List Submission) {s : Submission}
      → find_row id ss ≡ some s
      → p s ≡ true
      → has_row id p ss ≡ true
  unfolding find_row
  has_row-found [] e q = ground (arith, e)
  has_row-found (x ∷ ss) {s} e q = elim (Bool-cases (x.id == id)) [
    | inl h ↦ ground (arith, h, e, q)
    | inr h ↦ ground (arith, h, has_row-found ss {s = s} (rw (h, find_row) at e) q)
  ]

  -- What an update with a condition leaves of the row.
  pub find_row-updated :
      (ss : List Submission) {s : Submission}
      → find_row id ss ≡ some s
      → p s ≡ true
      → find_row id (update_rows id p f ss) ≡ some (f s)
  unfolding find_row update_rows
  find_row-updated [] e q = ground (arith, e)
  find_row-updated (x ∷ ss) {s} e q = elim (Bool-cases (x.id == id)) [
    | inl h ↦ ground (arith, h, e, q, same s)
    | inr h ↦ ground (arith, h, find_row-updated ss {s = s} (rw (h, find_row) at e) q)
  ]

  -- After an update of all rows of a submission no row passes a query that none of the new ones do.
  pub has_row-none :
      (q : Submission → Bool) (ss : List Submission)
      → ((s : Submission) → q (f s) ≡ false)
      → has_row id q (update_rows id anyone f ss) ≡ false
  unfolding update_rows
  has_row-none q [] none_pass = refl
  has_row-none q (x ∷ ss) none_pass = ground (arith, none_pass x, has_row-none q ss none_pass)

pub cases_of-deleted :
    (id : ℕ) (cs : List CaseRow) → cases_of id (keep (λ c. not (c.submission == id)) cs) ≡ []
unfolding cases_of
cases_of-deleted id [] = refl
cases_of-deleted id (c ∷ cs) = ground (arith, cases_of-deleted id cs)
