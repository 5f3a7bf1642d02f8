-- ===== src/Bridge/Packets/Cases.antt =====
-- A submission has at most one row for a test case.
use mathlib.Core.List.{append-nil, append_assoc}
use study_sys.Prelude.{
  ap, ◌∙◌, ◌⊎◌, true, if◌then◌else◌, ◌+◌, Bool, ℕ, ◌≡◌, ◌≤◌, refl, false, ◌&&◌, not, none, some,
  List, [], ◌∷◌, ◌++◌, arith, any, count, count-append, keep, map, ◌==◌, Bool-cases, Option-cases,
  inl, inr, Option, Bool, subst, sym,
}
use study_sys.Store.{CaseRow, delete_cases, update_submission, has_row, anyone}
use study_sys.Bridge.JudgeList as List_of_judges
use study_sys.Bridge.Packets.{
  store_to, throttle, integrity_error, Session, Packet, CaseResult, same_case, bulk_create, Answer,
  freed, free_self, grading_begin, grading_end, compile_message, batch_begin, batch_end,
  test_case_status, submission_terminated, submission_acknowledged, on_packet, on_grading_begin,
  on_grading_end, store_grade, on_compile_error, on_compile_message, on_internal_error,
  on_submission_terminated, on_submission_acknowledged, on_submission_processing,
  on_submission_wrong_acknowledge, on_batch_begin, begin_batch, on_batch_end, on_test_case,
  add_results, store_cases, case_row, max_position,
}

abbrev pub is_case : ℕ → ℕ → CaseRow → Bool
is_case id k c = c.submission == id && c.test_case.case == k

-- `unique_together = ('submission', 'case')`
abbrev pub HasUniqueCases : List CaseRow → Type 0
HasUniqueCases cs = (id k : ℕ) → count (is_case id k) cs ≤ 1

fresh_case :
    (c : CaseRow) (cs : List CaseRow)
    → any (same_case c) cs ≡ false
    → count (is_case c.submission c.test_case.case) cs ≡ 0
fresh_case c [] e = refl
fresh_case c (d ∷ cs) e = ground (arith, e, fresh_case c cs)

bulk_create-HasUniqueCases :
    (new cs out : List CaseRow)
    → HasUniqueCases cs
    → bulk_create new cs ≡ some out
    → HasUniqueCases out
unfolding bulk_create
bulk_create-HasUniqueCases [] cs out u e = λ id k. ground (arith, e, u id k)
bulk_create-HasUniqueCases (c ∷ new) cs out u e = elim (Bool-cases (any (same_case c) cs)) [
  | inl old ↦ λ id k. ground (arith, old, e)
  | inr fresh ↦
      bulk_create-HasUniqueCases new (cs ++ (c ∷ [])) out
        (λ id k.
          ground (arith, count-append (is_case id k) cs (c ∷ []), u id k, fresh_case c cs fresh))
        (rw (fresh, bulk_create) at e)
]

keep-HasUniqueCases :
    (p : CaseRow → Bool) (cs : List CaseRow) (id k : ℕ)
    → count (is_case id k) (keep p cs) ≤ count (is_case id k) cs
keep-HasUniqueCases p [] id k = omega arith
keep-HasUniqueCases p (c ∷ cs) id k = ground (arith, keep-HasUniqueCases p cs id k)

freed-HasUniqueCases :
    (a : Answer) (f : Session → Answer)
    → HasUniqueCases a.0.store.cases
    → ((τ : Session) → (f τ).0.store.cases ≡ τ.store.cases)
    → HasUniqueCases (freed a f).0.store.cases
freed-HasUniqueCases (τ, none) f u same = subst HasUniqueCases (sym (same τ)) u
freed-HasUniqueCases (τ, some e) f u same = u

store_grade-cases : (id : ℕ) (τ : Session) → (store_grade id τ).0.store.cases ≡ τ.store.cases
unfolding store_grade update_submission
store_grade-cases id τ = ground arith

begin_batch-cases :
    (b : Option ℕ) (id : ℕ) (τ : Session) → (begin_batch b id τ).store.cases ≡ τ.store.cases
unfolding begin_batch update_submission
begin_batch-cases none id τ = refl
begin_batch-cases (some b) id τ = refl

on_submission_acknowledged-cases :
    (id : ℕ) (τ : Session) → (on_submission_acknowledged id τ).store.cases ≡ τ.store.cases
unfolding on_submission_acknowledged on_submission_processing on_submission_wrong_acknowledge
    update_submission
on_submission_acknowledged-cases id τ = ground arith

store_cases-HasUniqueCases :
    (rows : List CaseRow) (σ : Session)
    → HasUniqueCases σ.store.cases
    → HasUniqueCases (store_cases rows σ).0.store.cases
unfolding store_cases
store_cases-HasUniqueCases rows σ u = elim (Option-cases (bulk_create rows σ.store.cases)) [
  | inl full ↦ rw (full, store_cases) u
  | inr (new, found) ↦
      rw (found, store_cases) (bulk_create-HasUniqueCases rows σ.store.cases new u found)
]

on_test_case-HasUniqueCases :
    (now id : ℕ) (rs : List CaseResult) (σ : Session)
    → HasUniqueCases σ.store.cases
    → HasUniqueCases (on_test_case now id rs σ).0.store.cases
unfolding on_test_case add_results update_submission
on_test_case-HasUniqueCases now id rs σ u = elim (Option-cases (max_position rs)) [
  | inl nothing ↦ rw (nothing, on_test_case) u
  | inr (top, found) ↦
      rw (found, on_test_case)
        (elim (Bool-cases (has_row id anyone σ.store.submissions)) [
          | inl here ↦ simp (here) (store_cases-HasUniqueCases (map (case_row σ id) rs) _ u)
          | inr gone ↦ simp (gone) u
        ])
]

on_grading_begin-HasUniqueCases :
    (id : ℕ) (b : Bool) (σ : Session)
    → HasUniqueCases σ.store.cases
    → HasUniqueCases (on_grading_begin id b σ).store.cases
unfolding on_grading_begin delete_cases update_submission
on_grading_begin-HasUniqueCases id b σ u i k =
    ground (arith, u i k, keep-HasUniqueCases (λ c. not (c.submission == id)) σ.store.cases i k)

-- Every packet keeps the constraint that a submission has at most one row for a test case.
pub on_packet-HasUniqueCases :
    (world : List_of_judges.World) (now : ℕ) (p : Packet) (σ : Session)
    → HasUniqueCases σ.store.cases
    → HasUniqueCases (on_packet world now p σ).0.store.cases
unfolding on_packet on_grading_end on_compile_error on_compile_message on_internal_error
    on_submission_terminated on_batch_begin on_batch_end free_self update_submission
on_packet-HasUniqueCases world now (grading_begin id b) σ u =
    on_grading_begin-HasUniqueCases id b σ u
on_packet-HasUniqueCases world now (grading_end id) σ u =
    freed-HasUniqueCases (free_self world id σ) _ u (store_grade-cases id)
on_packet-HasUniqueCases world now (Packet.compile_error id log) σ u =
    freed-HasUniqueCases (free_self world id σ) _ u (λ τ. refl)
on_packet-HasUniqueCases world now (compile_message id log) σ u = u
on_packet-HasUniqueCases world now (batch_begin id) σ u =
    subst HasUniqueCases (sym (begin_batch-cases σ.batch_id id σ)) u
on_packet-HasUniqueCases world now (batch_end id) σ u = u
on_packet-HasUniqueCases world now (test_case_status id rs) σ u =
    on_test_case-HasUniqueCases now id rs σ u
on_packet-HasUniqueCases world now (Packet.internal_error id m) σ u =
    freed-HasUniqueCases (free_self world id σ) _ u (λ τ. refl)
on_packet-HasUniqueCases world now (submission_terminated id) σ u =
    freed-HasUniqueCases (free_self world id σ) _ u (λ τ. refl)
on_packet-HasUniqueCases world now (submission_acknowledged id) σ u =
    subst HasUniqueCases (sym (on_submission_acknowledged-cases id σ)) u

old_case :
    (c : CaseRow) (cs : List CaseRow)
    → any (same_case c) cs ≡ true
    → 1 ≤ count (is_case c.submission c.test_case.case) cs
old_case c [] e = ground (arith, e)
old_case c (d ∷ cs) e = ground (arith, e, old_case c cs)

-- The table `out` has two rows for a test case of a submission.
pub Repeats : List CaseRow → Type 0
Repeats out = (id : ℕ) × (k : ℕ) × (2 ≤ count (is_case id k) out)

repeated :
    (c : CaseRow) (new cs : List CaseRow) → any (same_case c) cs ≡ true → Repeats (cs ++ (c ∷ new))
unfolding Repeats
repeated c new cs old = (
  c.submission,
  c.test_case.case,
  ground
      (arith, count-append (is_case c.submission c.test_case.case) cs (c ∷ new), old_case c cs old),
)

-- All the rows are added, or none when that would break the constraint.
bulk_create-all_or_none :
    (new cs : List CaseRow)
    → HasUniqueCases cs
    → ((bulk_create new cs ≡ some (cs ++ new)) × HasUniqueCases (cs ++ new))
      ⊎ ((bulk_create new cs ≡ none) × Repeats (cs ++ new))
unfolding bulk_create
bulk_create-all_or_none [] cs u =
    let same = append-nil cs in inl (ap some (sym same), subst HasUniqueCases (sym same) u)
bulk_create-all_or_none (c ∷ new) cs u = elim (Bool-cases (any (same_case c) cs)) [
  | inl old ↦ inr (rw (old, bulk_create) refl, repeated c new cs old)
  | inr fresh ↦
      let longer : HasUniqueCases (cs ++ (c ∷ [])) = (λ id k.
        ground (arith, count-append (is_case id k) cs (c ∷ []), u id k, fresh_case c cs fresh)) in
      let same : (cs ++ (c ∷ [])) ++ new ≡ cs ++ (c ∷ new) = append_assoc cs (c ∷ []) new in
      elim (bulk_create-all_or_none new (cs ++ (c ∷ [])) longer) [
        | inl (done, kept) ↦
            inl (rw (fresh, bulk_create) (done ∙ ap some same), subst HasUniqueCases same kept)
        | inr (full, twice) ↦ inr (rw (fresh, bulk_create) full, subst Repeats same twice)
      ]
]

store_cases-all_or_none :
    (new : List CaseRow) (σ : Session)
    → HasUniqueCases σ.store.cases
    → let (u, e) = store_cases new σ in
      let all = σ.store.cases ++ new in
      ((e ≡ none) × (u.store.cases ≡ all) × HasUniqueCases all)
      ⊎ ((e ≡ some integrity_error) × (u.store.cases ≡ σ.store.cases) × Repeats all)
unfolding store_cases
store_cases-all_or_none new σ unique = elim (bulk_create-all_or_none new σ.store.cases unique) [
  | inl (done, kept) ↦ inl (rw (done, store_cases) (refl, refl, kept))
  | inr (full, twice) ↦ inr (rw (full, store_cases) (refl, refl, twice))
]

-- The session before the rows are stored.
abbrev tested : ℕ → ℕ → ℕ → Session → Session
tested now id top σ =
    let (counter, do_post) = throttle now id σ.update_counter in
    store_to
      (record σ { update_counter = counter; posts = if do_post then id ∷ σ.posts else σ.posts })
      (update_submission id (λ s. record s { current_testcase = top + 1 }))

-- A packet with results, at least one, for a submission that is there, in a table with at most one
-- row for each test case of a submission, adds a row for every result after the others, and the
-- table is such a one again; or it fails with an IntegrityError and leaves all the rows of test
-- cases as they were, and the table with the new rows would have two for some test case.
pub on_packet-all_or_none :
    (world : List_of_judges.World) (now id top : ℕ) (rs : List CaseResult) (σ : Session)
    → HasUniqueCases σ.store.cases
    → has_row id anyone σ.store.submissions ≡ true
    → max_position rs ≡ some top
    → let (u, e) = on_packet world now (test_case_status id rs) σ in
      let all = σ.store.cases ++ map (case_row σ id) rs in
      ((e ≡ none) × (u.store.cases ≡ all) × HasUniqueCases all)
      ⊎ ((e ≡ some integrity_error) × (u.store.cases ≡ σ.store.cases) × Repeats all)
unfolding on_packet on_test_case add_results update_submission
on_packet-all_or_none world now id top rs σ unique here last =
    rw (last, here, on_test_case)
      (store_cases-all_or_none (map (case_row σ id) rs) (tested now id top σ) unique)
