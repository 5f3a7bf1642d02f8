-- ===== src/Bridge/JudgeList/Choice.antt =====
-- Which judge `judge` chooses.
use study_sys.Prelude.{
  ℕ, ◌≤◌, ◌<◌, ◌≡◌, refl, Bool, true, false, not, none, some, List, [], ◌∷◌, arith, Option-cases,
  inl, inr, length, keep, all,
}
use study_sys.Bridge.Judge.{Judge, Request, is_free}
use study_sys.Bridge.JudgeList.{
  JudgeList, key_lt, least_loaded, candidates, available, choose, is_candidate,
}

-- No handler of the list has a smaller key.
abbrev pub is_least : (ℕ → ℕ) → Judge → List Judge → Bool
is_least draw j js = all (λ k. not (key_lt draw k j)) js

is_least_mono :
    (draw : ℕ → ℕ) (j k : Judge) (js : List Judge)
    → key_lt draw k j ≡ false
    → is_least draw k js ≡ true
    → is_least draw j js ≡ true
is_least_mono draw j k [] e h = refl
is_least_mono draw j k (m ∷ js) e h = ground (arith, is_least_mono draw j k js e)

is_least-lt : (draw : ℕ → ℕ) (j k : Judge) → key_lt draw k j ≡ true → key_lt draw j k ≡ false
is_least-lt draw j k e = ground arith

key_lt_irrefl : (draw : ℕ → ℕ) (j : Judge) → key_lt draw j j ≡ false
key_lt_irrefl draw j = ground arith

least_loaded-nil : (draw : ℕ → ℕ) (js : List Judge) → least_loaded draw js ≡ none → js ≡ []
unfolding least_loaded
least_loaded-nil draw [] e = refl
least_loaded-nil draw (j ∷ js) e = ground arith

least_loaded-some :
    (draw : ℕ → ℕ) (js : List Judge) {j : Judge} → least_loaded draw js ≡ some j → 0 < length js
unfolding least_loaded
least_loaded-some draw [] e = ground arith
least_loaded-some draw (j ∷ js) e = omega arith

least_loaded-least :
    (draw : ℕ → ℕ) (js : List Judge) {j : Judge}
    → least_loaded draw js ≡ some j
    → is_least draw j js ≡ true
unfolding least_loaded
least_loaded-least draw [] e = refl
least_loaded-least draw (j ∷ js) {j = k} e = elim (Option-cases (least_loaded draw js)) [
  | inl nobody ↦ ground (arith, least_loaded-nil draw js nobody, key_lt_irrefl draw j)
  | inr (m, found) ↦ ground (
    arith,
    least_loaded-least draw js found,
    is_least_mono draw j m js,
    is_least-lt draw m j,
    key_lt_irrefl draw m,
  )
]

least_loaded-all :
    (draw : ℕ → ℕ) (q : Judge → Bool) (js : List Judge) {j : Judge}
    → all q js ≡ true
    → least_loaded draw js ≡ some j
    → q j ≡ true
unfolding least_loaded
least_loaded-all draw q [] h e = ground arith
least_loaded-all draw q (k ∷ js) {j} h e = elim (Option-cases (least_loaded draw js)) [
  | inl nobody ↦ ground arith
  | inr (m, found) ↦ ground (arith, λ (t : all q js ≡ true). least_loaded-all draw q js t found)
]

all-keep_self : (p : Judge → Bool) (js : List Judge) → all p (keep p js) ≡ true
all-keep_self p [] = refl
all-keep_self p (j ∷ js) = ground (arith, all-keep_self p js)

all-keep : (p q : Judge → Bool) (js : List Judge) → all q js ≡ true → all q (keep p js) ≡ true
all-keep p q [] h = refl
all-keep p q (j ∷ js) h = ground (arith, all-keep p q js)

-- The judge that `judge` chooses is in the set, can judge the submission, is neither working nor
-- disabled, and among the judges for which that holds none has a smaller load, or the same load and
-- a smaller random draw.
pub choose_sound :
    (draw : ℕ → ℕ) (p : ℕ) (r : Request) (s : JudgeList) {j : Judge}
    → choose draw p r s ≡ some j
    → (is_candidate r j ≡ true) × (is_free j ≡ true) × (is_least draw j (available r s) ≡ true)
unfolding choose
choose_sound draw p r s {j} e =
    let chosen : least_loaded draw (available r s) ≡ some j = ground arith in
    (
      least_loaded-all draw (is_candidate r) (available r s)
          (all-keep is_free (is_candidate r) (candidates r s)
            (all-keep_self (is_candidate r) s.handlers))
          chosen,
      least_loaded-all draw is_free (available r s) (all-keep_self is_free (candidates r s)) chosen,
      least_loaded-least draw (available r s) chosen,
    )

-- A submission that is graded again, or of a batch of such, never takes the last available judge:
-- if there are several candidates and one is chosen, at least two are available.
pub choose_reserves :
    (draw : ℕ → ℕ) (p : ℕ) (r : Request) (s : JudgeList) {j : Judge}
    → 2 ≤ p
    → 2 ≤ length (candidates r s)
    → choose draw p r s ≡ some j
    → 2 ≤ length (available r s)
unfolding choose
choose_reserves draw p r s {j} late several e =
    let chosen : least_loaded draw (available r s) ≡ some j = ground arith in
    ground (arith, least_loaded-some draw (available r s) chosen)

-- A judge is chosen for an urgent submission whenever one is available.
pub choose_urgent :
    (draw : ℕ → ℕ) (p : ℕ) (r : Request) (s : JudgeList)
    → p < 2
    → choose draw p r s ≡ none
    → available r s ≡ []
unfolding choose
choose_urgent draw p r s early e = ground (arith, least_loaded-nil draw (available r s))
