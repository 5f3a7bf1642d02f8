-- ===== src/Bridge/Packets/Fates.antt =====
-- How packets end a submission, and what they leave of the list of judges.
use study_sys.Prelude.{
  ℕ, ◌≡◌, ◌≤◌, ◌∙◌, ◌⊎◌, List, refl, ap, sym, subst, true, false, none, some, Option, arith,
  Option-cases, inl, inr, Bool, all, leb,
}
use study_sys.Prelude.Dict.{contains}
use study_sys.Grading.{grade, Verdict, ce, ie, ab}
use study_sys.Grading.Points.{grade_bounds}
use study_sys.Store.{
  Status, Submission, Store, find_row, cases_of, find_row-updated, update_submission, anyone,
  queued, processing, grading,
}
use study_sys.Bridge.JudgeList as List_of_judges
use study_sys.Bridge.JudgeList.{key_error}
use study_sys.Bridge.JudgeList.Steps.{IsSound, Reach-IsSound, here, next, frees}
use study_sys.Bridge.Packets.{
  Session, Packet, Answer, judges_fault, grading_begin, grading_end, compile_message, batch_begin,
  batch_end, test_case_status, submission_terminated, submission_acknowledged, free_self, freed,
  store_to, graded, on_packet, on_grading_end, store_grade, on_compile_error, on_internal_error,
  on_submission_terminated, on_submission_acknowledged, on_submission_processing, on_grading_begin,
  on_batch_begin, begin_batch, CaseResult, on_batch_end, on_compile_message, on_test_case,
  add_results, store_cases,
}
use study_sys.Bridge.Packets.Isolation.{named}

-- The packets that end a submission.
abbrev pub is_final : Packet → Bool
is_final (grading_end id) = true
is_final (Packet.compile_error id log) = true
is_final (Packet.internal_error id m) = true
is_final (submission_terminated id) = true
is_final _ = false

-- `is_graded`
unfoldable pub is_graded : Status → Bool
is_graded queued = false
is_graded processing = false
is_graded grading = false
is_graded _ = true

free_unknown :
    (world : List_of_judges.World) (id : ℕ) (σ : Session)
    → contains id σ.judges.submission_map ≡ false
    → free_self world id σ ≡ (σ, some (judges_fault key_error))
unfolding free_self List_of_judges.on_judge_free
free_unknown world id σ e = rw (e, free_self, List_of_judges.on_judge_free) refl

-- When the bridge does not have a submission as being graded, a packet that would end it fails
-- with a KeyError and changes nothing: not the tables, not the handler, not the list of judges.
pub final_packet_unknown :
    (world : List_of_judges.World) (now : ℕ) (p : Packet) (σ : Session)
    → is_final p ≡ true
    → contains (named p) σ.judges.submission_map ≡ false
    → on_packet world now p σ ≡ (σ, some (judges_fault key_error))
unfolding on_packet on_grading_end on_compile_error on_internal_error on_submission_terminated
final_packet_unknown world now (grading_end id) σ f e = rw (free_unknown world id σ e) refl
final_packet_unknown world now (Packet.compile_error id log) σ f e =
    rw (free_unknown world id σ e) refl
final_packet_unknown world now (Packet.internal_error id m) σ f e =
    rw (free_unknown world id σ e) refl
final_packet_unknown world now (submission_terminated id) σ f e =
    rw (free_unknown world id σ e) refl
final_packet_unknown world now (grading_begin id b) σ f e = ground (arith, f)
final_packet_unknown world now (compile_message id l) σ f e = ground (arith, f)
final_packet_unknown world now (batch_begin id) σ f e = ground (arith, f)
final_packet_unknown world now (batch_end id) σ f e = ground (arith, f)
final_packet_unknown world now (test_case_status id rs) σ f e = ground (arith, f)
final_packet_unknown world now (submission_acknowledged id) σ f e = ground (arith, f)

-- A row that is at an end: with a result, and with the points that it had or no more than the
-- problem has.
pub record IsEnded (old new : Submission) : Type 0 where
  pub over : is_graded new.status ≡ true
  pub verdict : Verdict
  pub result : new.result ≡ some verdict
  pub points : (new.points ≡ old.points) ⊎ ((k : ℕ) × (new.points ≡ some k) × (k ≤ old.worth))

-- An answer without a fault, and the row that it leaves.
abbrev pub Ends : ℕ → Submission → Answer → Type 0
Ends id old a =
    a.1 ≡ none
    → (new : Submission) × (find_row id a.0.store.submissions ≡ some new) × IsEnded old new

Ends-freed :
    (id : ℕ) (old : Submission) (a : Answer) (f : Session → Answer) (u : Store)
    → a.0.store ≡ u
    → ((τ : Session) → τ.store ≡ u → Ends id old (f τ))
    → Ends id old (freed a f)
Ends-freed id old (τ, none) f u same later = later τ same
Ends-freed id old (τ, some e) f u same later = λ h. ground (arith, h)

ended_update :
    (id : ℕ) (old : Submission) (f : Submission → Submission) (t : Store)
    → ((s : Submission) → (f s).id ≡ s.id)
    → find_row id t.submissions ≡ some old
    → find_row id (update_submission id f t).submissions ≡ some (f old)
unfolding update_submission
ended_update id old f t same e = find_row-updated id anyone f same t.submissions e refl

update-Ends :
    (id : ℕ) (old : Submission) (f : Submission → Submission) (τ : Session)
    → ((s : Submission) → (f s).id ≡ s.id)
    → find_row id τ.store.submissions ≡ some old
    → IsEnded old (f old)
    → Ends id old (store_to τ (update_submission id f), none)
update-Ends id old f τ same e ended = λ h. (f old, ended_update id old f τ.store same e, ended)

-- A row that only gets a status and a result, or no points, is at an end.
unpaid :
    (old new : Submission) (v : Verdict)
    → is_graded new.status ≡ true
    → new.result ≡ some v
    → (new.points ≡ old.points) ⊎ (new.points ≡ some 0)
    → IsEnded old new
unpaid old new v over result points = record {
  over = over;
  verdict = v;
  result = result;
  points = elim points [ inl same ↦ inl same | inr zero ↦ inr (0, zero, omega arith) ];
}

store_grade-Ends :
    (id : ℕ) (old : Submission) (τ : Session)
    → find_row id τ.store.submissions ≡ some old
    → all (λ c. leb c.points c.total) (cases_of id τ.store.cases) ≡ true
    → Ends id old (store_grade id τ)
unfolding store_grade is_graded
store_grade-Ends id old τ e small =
    elim (Option-cases (grade old.partial old.worth (cases_of id τ.store.cases))) [
      | inl bad ↦ rw (e, bad, store_grade) (λ h. ground (arith, h))
      | inr (g, good) ↦
          rw (e, good, store_grade)
            (update-Ends id old (graded g) (record τ { batch_id = none }) (λ s. refl) e
              record {
                over = refl;
                verdict = g.result;
                result = refl;
                points = inr (
                  g.points,
                  refl,
                  (grade_bounds old.partial old.worth (cases_of id τ.store.cases) {g = g} small
                      good).1,
                );
              })
    ]

-- A packet that ends a submission of the table, and meets no fault, leaves a row that is not in
-- progress and has a result; its points are those that it had or at most the problem's, when no
-- test case has more points than it can have.
pub final_packet-IsEnded :
    (world : List_of_judges.World) (now : ℕ) (p : Packet) (σ : Session) (old : Submission)
    → is_final p ≡ true
    → find_row (named p) σ.store.submissions ≡ some old
    → all (λ c. leb c.points c.total) (cases_of (named p) σ.store.cases) ≡ true
    → (on_packet world now p σ).1 ≡ none
    → (new : Submission) × (find_row (named p) (on_packet world now p σ).0.store.submissions
        ≡ some new)
      × IsEnded old new
unfolding on_packet on_grading_end on_compile_error on_internal_error on_submission_terminated
    free_self is_graded
final_packet-IsEnded world now (grading_end id) σ old f e small ok =
    Ends-freed id old (free_self world id σ) (store_grade id) σ.store refl
      (λ τ same.
        store_grade-Ends id old τ (ap (λ t. find_row id t.submissions) same ∙ e)
          (ap (λ t. all (λ c. leb c.points c.total) (cases_of id t.cases)) same ∙ small))
      ok
final_packet-IsEnded world now (Packet.compile_error id log) σ old f e small ok =
    Ends-freed id old (free_self world id σ) _ σ.store refl
      (λ τ same.
        update-Ends id old _ τ (λ s. refl) (ap (λ t. find_row id t.submissions) same ∙ e)
          (unpaid old _ ce refl refl (inl refl)))
      ok
final_packet-IsEnded world now (Packet.internal_error id m) σ old f e small ok =
    Ends-freed id old (free_self world id σ) _ σ.store refl
      (λ τ same.
        update-Ends id old _ τ (λ s. refl) (ap (λ t. find_row id t.submissions) same ∙ e)
          (unpaid old _ ie refl refl (inl refl)))
      ok
final_packet-IsEnded world now (submission_terminated id) σ old f e small ok =
    Ends-freed id old (free_self world id σ) _ σ.store refl
      (λ τ same.
        update-Ends id old _ τ (λ s. refl) (ap (λ t. find_row id t.submissions) same ∙ e)
          (unpaid old _ ab refl refl (inr refl)))
      ok
final_packet-IsEnded world now (grading_begin id b) σ old f e small ok = ground (arith, f)
final_packet-IsEnded world now (compile_message id l) σ old f e small ok = ground (arith, f)
final_packet-IsEnded world now (batch_begin id) σ old f e small ok = ground (arith, f)
final_packet-IsEnded world now (batch_end id) σ old f e small ok = ground (arith, f)
final_packet-IsEnded world now (test_case_status id rs) σ old f e small ok = ground (arith, f)
final_packet-IsEnded world now (submission_acknowledged id) σ old f e small ok = ground (arith, f)

freed-IsSound :
    (a : Answer) (f : Session → Answer)
    → IsSound a.0.judges
    → ((τ : Session) → (f τ).0.judges ≡ τ.judges)
    → IsSound (freed a f).0.judges
freed-IsSound (τ, none) f v same = subst IsSound (sym (same τ)) v
freed-IsSound (τ, some e) f v same = v

free_self-IsSound :
    (world : List_of_judges.World) (id : ℕ) (σ : Session)
    → IsSound σ.judges
    → IsSound (free_self world id σ).0.judges
unfolding free_self
free_self-IsSound world id σ v = Reach-IsSound v (next here (frees world σ.oid id))

store_grade-judges : (id : ℕ) (τ : Session) → (store_grade id τ).0.judges ≡ τ.judges
unfolding store_grade
store_grade-judges id τ = ground arith

begin_batch-judges : (b : Option ℕ) (id : ℕ) (τ : Session) → (begin_batch b id τ).judges ≡ τ.judges
unfolding begin_batch
begin_batch-judges none id τ = refl
begin_batch-judges (some b) id τ = refl

on_grading_begin-judges :
    (id : ℕ) (b : Bool) (τ : Session) → (on_grading_begin id b τ).judges ≡ τ.judges
unfolding on_grading_begin
on_grading_begin-judges id b τ = ground arith

on_test_case-judges :
    (now id : ℕ) (rs : List CaseResult) (τ : Session)
    → (on_test_case now id rs τ).0.judges ≡ τ.judges
unfolding on_test_case add_results store_cases
on_test_case-judges now id rs τ = ground arith

on_submission_acknowledged-judges :
    (id : ℕ) (τ : Session) → (on_submission_acknowledged id τ).judges ≡ τ.judges
unfolding on_submission_acknowledged on_submission_processing
on_submission_acknowledged-judges id τ = ground arith

-- Every packet keeps the queue and the maps of the list of judges sound.
pub on_packet-IsSound :
    (world : List_of_judges.World) (now : ℕ) (p : Packet) (σ : Session)
    → IsSound σ.judges
    → IsSound (on_packet world now p σ).0.judges
unfolding on_packet on_grading_end on_compile_error on_compile_message on_internal_error
    on_submission_terminated on_batch_begin on_batch_end
on_packet-IsSound world now (grading_begin id b) σ v =
    subst IsSound (sym (on_grading_begin-judges id b σ)) v
on_packet-IsSound world now (grading_end id) σ v =
    freed-IsSound (free_self world id σ) _ (free_self-IsSound world id σ v) (store_grade-judges id)
on_packet-IsSound world now (Packet.compile_error id log) σ v =
    freed-IsSound (free_self world id σ) _ (free_self-IsSound world id σ v) (λ τ. refl)
on_packet-IsSound world now (compile_message id log) σ v = v
on_packet-IsSound world now (batch_begin id) σ v =
    subst IsSound (sym (begin_batch-judges σ.batch_id id σ)) v
on_packet-IsSound world now (batch_end id) σ v = v
on_packet-IsSound world now (test_case_status id rs) σ v =
    subst IsSound (sym (on_test_case-judges now id rs σ)) v
on_packet-IsSound world now (Packet.internal_error id m) σ v =
    freed-IsSound (free_self world id σ) _ (free_self-IsSound world id σ v) (λ τ. refl)
on_packet-IsSound world now (submission_terminated id) σ v =
    freed-IsSound (free_self world id σ) _ (free_self-IsSound world id σ v) (λ τ. refl)
on_packet-IsSound world now (submission_acknowledged id) σ v =
    subst IsSound (sym (on_submission_acknowledged-judges id σ)) v
