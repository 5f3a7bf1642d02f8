-- ===== src/Bridge/Packets/Isolation.antt =====
-- Which rows a packet can change.
use mathlib.Core.List.{append-nil}
use mathlib.Core.Option.{some_inj}
use study_sys.Grading.{ie, grade}
use study_sys.Prelude.{
  not, Option-cases, any, ap, sym, if◌then◌else◌, Bool, ℕ, ◌≡◌, ◌∙◌, refl, true, false, none, some,
  List, [], ◌∷◌, ◌++◌, arith, ◌==◌, map, Bool-cases, inl, inr, Option,
}
use study_sys.Store.{
  Status, Submission, CaseRow, Store, find_row, cases_of, find_row-other, cases_of-delete,
  cases_of-append, update_submission, update_rows, delete_cases, anyone, has_row,
}
use study_sys.Bridge.JudgeList as List_of_judges
use study_sys.Bridge.Packets.{
  Session, Packet, CaseResult, grading_begin, grading_end, compile_message, batch_begin, batch_end,
  test_case_status, submission_terminated, submission_acknowledged, Answer, working, free_self,
  freed, on_packet, on_submission_acknowledged, on_submission_processing,
  on_submission_wrong_acknowledge, on_grading_begin, on_grading_end, store_grade, on_compile_error,
  on_compile_message, on_internal_error, on_submission_terminated, on_batch_begin, on_batch_end,
  on_test_case, store_cases, bulk_create, case_row, max_position, add_results, same_case, is_queued,
  fail_with, graded, begin_batch,
}

-- The submission that a packet names; `batch_end` changes no row.
abbrev pub named : Packet → ℕ
named (grading_begin id b) = id
named (grading_end id) = id
named (Packet.compile_error id log) = id
named (compile_message id log) = id
named (batch_begin id) = id
named (batch_end id) = id
named (test_case_status id rs) = id
named (Packet.internal_error id m) = id
named (submission_terminated id) = id
named (submission_acknowledged id) = id

-- The packet is no acknowledgement in a session that works on `j`.
abbrev pub spares : ℕ → Packet → Session → Bool
spares j (submission_acknowledged id) σ = not (working σ == j)
spares j p σ = true

-- The row and the test cases of `j` are the same in both tables.
pub record Agree (j : ℕ) (t u : Store) : Type 0 where
  pub row : find_row j t.submissions ≡ find_row j u.submissions
  pub cases : cases_of j t.cases ≡ cases_of j u.cases

Agree-refl : (j : ℕ) (t : Store) → Agree j t t
Agree-refl j t = record { row = refl; cases = refl }

Agree-update :
    (id j : ℕ) (f : Submission → Submission) (t : Store)
    → ((s : Submission) → (f s).id ≡ s.id)
    → (id == j) ≡ false
    → Agree j (update_submission id f t) t
unfolding update_submission
Agree-update id j f t same e = record {
  row = find_row-other id j anyone f t.submissions same e;
  cases = refl;
}

Agree-trans : {j : ℕ} {t u v : Store} → Agree j t u → Agree j u v → Agree j t v
Agree-trans a b = record { row = a.row ∙ b.row; cases = a.cases ∙ b.cases }

Agree-if :
    {j : ℕ} {u : Store} (b : Bool) (σ τ : Session)
    → Agree j σ.store u
    → Agree j τ.store u
    → Agree j (if b then σ else τ).store u
Agree-if true σ τ x y = x
Agree-if false σ τ x y = y

Agree-answer :
    {j : ℕ} {u : Store} (a : Answer) (f : Session → Answer)
    → Agree j a.0.store u
    → ((τ : Session) → Agree j (f τ).0.store τ.store)
    → Agree j (freed a f).0.store u
Agree-answer (τ, none) f x later = Agree-trans (later τ) x
Agree-answer (τ, some e) f x later = x

-- A handler that frees the judge first.
Agree-freed :
    (world : List_of_judges.World) (id j : ℕ) (f : Session → Answer) (σ : Session)
    → ((τ : Session) → Agree j (f τ).0.store τ.store)
    → Agree j (freed (free_self world id σ) f).0.store σ.store
unfolding free_self
Agree-freed world id j f σ later =
    Agree-answer (free_self world id σ) f (Agree-refl j σ.store) later

Agree-rows :
    (id j : ℕ) (p : Submission → Bool) (f : Submission → Submission) (t : Store)
    → ((s : Submission) → (f s).id ≡ s.id)
    → (id == j) ≡ false
    → Agree j (record t { submissions = update_rows id p f t.submissions }) t
Agree-rows id j p f t same e = record {
  row = find_row-other id j p f t.submissions same e;
  cases = refl;
}

Agree-wrong_acknowledge :
    (id j : ℕ) (σ : Session)
    → (id == j) ≡ false
    → (working σ == j) ≡ false
    → Agree j (on_submission_wrong_acknowledge (working σ) id σ.store) σ.store
unfolding on_submission_wrong_acknowledge
Agree-wrong_acknowledge id j σ e w =
    let t = update_submission (working σ) (fail_with Status.internal_error ie none) σ.store in
    Agree-trans
      (Agree-rows id j is_queued (fail_with Status.internal_error ie none) t (λ s. refl) e)
      (Agree-update (working σ) j (fail_with Status.internal_error ie none) σ.store (λ s. refl) w)

Agree-acknowledged :
    (id j : ℕ) (σ : Session)
    → (id == j) ≡ false
    → (working σ == j) ≡ false
    → Agree j (on_submission_acknowledged id σ).store σ.store
unfolding on_submission_acknowledged on_submission_processing
Agree-acknowledged id j σ e w =
    Agree-if (id == working σ) _ _ (Agree-update id j _ σ.store (λ s. refl) e)
      (Agree-trans (Agree-update id j _ _ (λ s. refl) e) (Agree-wrong_acknowledge id j σ e w))

none_of :
    (id j : ℕ) (σ : Session) (r : CaseResult)
    → (id == j) ≡ false
    → cases_of j (case_row σ id r ∷ []) ≡ []
unfolding cases_of case_row
none_of id j σ r e = rw (e) refl

bulk_create-other :
    (id j : ℕ) (σ : Session) (rs : List CaseResult) (cs new : List CaseRow)
    → (id == j) ≡ false
    → bulk_create (map (case_row σ id) rs) cs ≡ some new
    → cases_of j new ≡ cases_of j cs
unfolding bulk_create
bulk_create-other id j σ [] cs new e found = ap (cases_of j) (sym (some_inj.0 found))
bulk_create-other id j σ (r ∷ rs) cs new e found =
    elim (Bool-cases (any (same_case (case_row σ id r)) cs)) [
      | inl old ↦ ground (arith, old, found)
      | inr fresh ↦
          bulk_create-other id j σ rs (cs ++ (case_row σ id r ∷ [])) new e
            (rw (fresh, bulk_create) at found)
          ∙ cases_of-append j cs (case_row σ id r ∷ [])
          ∙ ap (λ x. cases_of j cs ++ x) (none_of id j σ r e)
          ∙ append-nil (cases_of j cs)
    ]

Agree-store_cases :
    (id j : ℕ) (τ σ : Session) (rs : List CaseResult)
    → (id == j) ≡ false
    → Agree j (store_cases (map (case_row τ id) rs) σ).0.store σ.store
unfolding store_cases
Agree-store_cases id j τ σ rs e =
    elim (Option-cases (bulk_create (map (case_row τ id) rs) σ.store.cases)) [
      | inl full ↦ rw (full, store_cases) (Agree-refl j σ.store)
      | inr (new, found) ↦
          rw (found, store_cases)
            (record { row = refl; cases = bulk_create-other id j τ rs σ.store.cases new e found })
    ]

Agree-add_results :
    (now id top j : ℕ) (rs : List CaseResult) (σ : Session)
    → (id == j) ≡ false
    → Agree j (add_results now id top rs σ).0.store σ.store
unfolding add_results
Agree-add_results now id top j rs σ e =
    Agree-trans (Agree-store_cases id j σ _ rs e) (Agree-update id j _ σ.store (λ s. refl) e)

Agree-test_case :
    (now id j : ℕ) (rs : List CaseResult) (σ : Session)
    → (id == j) ≡ false
    → Agree j (on_test_case now id rs σ).0.store σ.store
unfolding on_test_case
Agree-test_case now id j rs σ e = elim (Option-cases (max_position rs)) [
  | inl nothing ↦ rw (nothing, on_test_case) (Agree-refl j σ.store)
  | inr (top, found) ↦
      rw (found, on_test_case)
        (elim (Bool-cases (has_row id anyone σ.store.submissions)) [
          | inl here ↦ simp (here) (Agree-add_results now id top j rs σ e)
          | inr gone ↦ simp (gone) (Agree-refl j σ.store)
        ])
]

Agree-begin :
    (id j : ℕ) (b : Bool) (σ : Session)
    → (id == j) ≡ false
    → Agree j (on_grading_begin id b σ).store σ.store
unfolding on_grading_begin delete_cases update_submission
Agree-begin id j b σ e =
    Agree-if (has_row id anyone σ.store.submissions) _ _
      (Agree-trans (record { row = refl; cases = cases_of-delete id j σ.store.cases e })
        (Agree-update id j _ σ.store (λ s. refl) e))
      (Agree-refl j σ.store)

Agree-grade :
    (id j : ℕ) (σ : Session) → (id == j) ≡ false → Agree j (store_grade id σ).0.store σ.store
unfolding store_grade
Agree-grade id j σ e = elim (Option-cases (find_row id σ.store.submissions)) [
  | inl gone ↦ rw (gone, store_grade) (Agree-refl j σ.store)
  | inr (s, found) ↦
      rw (found, store_grade)
        (elim (Option-cases (grade s.partial s.worth (cases_of id σ.store.cases))) [
          | inl bad ↦ rw (bad) (Agree-refl j σ.store)
          | inr (g, good) ↦ rw (good) (Agree-update id j (graded g) σ.store (λ s. refl) e)
        ])
]

Agree-begin_batch :
    (b : Option ℕ) (id j : ℕ) (σ : Session)
    → (id == j) ≡ false
    → Agree j (begin_batch b id σ).store σ.store
unfolding begin_batch
Agree-begin_batch none id j σ e = Agree-update id j _ σ.store (λ s. refl) e
Agree-begin_batch (some b) id j σ e = Agree-refl j σ.store

-- A packet changes the row and the test cases of no submission but the one that it names and, if
-- it is an acknowledgement, the one that the judge works on.
pub on_packet-Agree :
    (world : List_of_judges.World) (now j : ℕ) (p : Packet) (σ : Session)
    → (named p == j) ≡ false
    → spares j p σ ≡ true
    → Agree j (on_packet world now p σ).0.store σ.store
unfolding on_packet on_grading_end on_compile_error on_compile_message on_internal_error
    on_submission_terminated on_batch_begin on_batch_end
on_packet-Agree world now j (grading_begin id b) σ e w = Agree-begin id j b σ e
on_packet-Agree world now j (grading_end id) σ e w =
    Agree-freed world id j (store_grade id) σ (λ τ. Agree-grade id j τ e)
on_packet-Agree world now j (Packet.compile_error id log) σ e w =
    Agree-freed world id j _ σ (λ τ. Agree-update id j _ τ.store (λ s. refl) e)
on_packet-Agree world now j (compile_message id log) σ e w =
    Agree-update id j _ σ.store (λ s. refl) e
on_packet-Agree world now j (batch_begin id) σ e w = Agree-begin_batch σ.batch_id id j σ e
on_packet-Agree world now j (batch_end id) σ e w = Agree-refl j σ.store
on_packet-Agree world now j (test_case_status id rs) σ e w = Agree-test_case now id j rs σ e
on_packet-Agree world now j (Packet.internal_error id m) σ e w =
    Agree-freed world id j _ σ (λ τ. Agree-update id j _ τ.store (λ s. refl) e)
on_packet-Agree world now j (submission_terminated id) σ e w =
    Agree-freed world id j _ σ (λ τ. Agree-update id j _ τ.store (λ s. refl) e)
on_packet-Agree world now j (submission_acknowledged id) σ e w =
    Agree-acknowledged id j σ e (ground (arith, w))
