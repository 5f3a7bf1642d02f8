-- ===== src/Labels.antt =====
-- judge/contest_format/icpc.py, `get_label_for_problem`: A, …, Z, AA, AB, … as lists of code points.
use study_sys.Prelude.{
  ap, ℕ, zero, suc, ◌≡◌, ◌≤◌, ◌+◌, ◌-◌, ◌*◌, ◌/◌, ◌%◌, ◌∙◌, Bool, true, ◌&&◌, List, [], ◌∷◌, ◌++◌,
  ◌==◌, leb, all, if◌then◌else◌, arith, refl,
}

-- What the loop appends to `ret`, in that order, on fuel.
unfoldable pub letters : ℕ → ℕ → List ℕ
letters zero index = []
letters (suc n) index =
    let rest = letters n ((index - 1) / 26) in
    if index == 0 then [] else ((index - 1) % 26 + 65) ∷ rest

-- `ret[::-1]`
unfoldable pub backwards : List ℕ → List ℕ
backwards [] = []
backwards (c ∷ cs) = backwards cs ++ (c ∷ [])

-- The loop runs at most `index + 1` times, since each turn makes the index smaller.
unfoldable pub get_label_for_problem : ℕ → List ℕ
get_label_for_problem index = backwards (letters (index + 1) (index + 1))

-- The number of a label, the first letter being the highest digit and A standing for 1.
unfoldable pub number : ℕ → List ℕ → ℕ
number v [] = v
number v (c ∷ cs) = number (v * 26 + (c - 64)) cs

unfoldable pub is_letter : ℕ → Bool
is_letter c = leb 65 c && leb c 90

number-append :
    (v : ℕ) (cs : List ℕ) (c : ℕ) → number v (cs ++ (c ∷ [])) ≡ number v cs * 26 + (c - 64)
unfolding number
number-append v [] c = refl
number-append v (d ∷ cs) c = number-append (v * 26 + (d - 64)) cs c

letters-suc : (n i : ℕ) → letters (suc n) (suc i) ≡ (i % 26 + 65) ∷ letters n (i / 26)
unfolding letters
letters-suc n i = ground arith

number-letters : (n index : ℕ) → index ≤ n → number 0 (backwards (letters n index)) ≡ index
unfolding backwards number letters
number-letters zero index le = omega arith
number-letters (suc n) zero le = refl
number-letters (suc n) (suc i) le =
    ap (λ x. number 0 (backwards x)) (letters-suc n i)
    ∙ number-append 0 (backwards (letters n (i / 26))) (i % 26 + 65)
    ∙ omega (arith, number-letters n (i / 26) (omega arith))

all-append : (p : ℕ → Bool) (xs ys : List ℕ) → all p (xs ++ ys) ≡ (all p xs && all p ys)
all-append p [] ys = refl
all-append p (x ∷ xs) ys = ground (arith, all-append p xs ys)

letters-capital : (n index : ℕ) → all is_letter (backwards (letters n index)) ≡ true
unfolding letters backwards is_letter
letters-capital zero index = refl
letters-capital (suc n) zero = refl
letters-capital (suc n) (suc i) =
    ap (λ x. all is_letter (backwards x)) (letters-suc n i)
    ∙ all-append is_letter (backwards (letters n (i / 26))) ((i % 26 + 65) ∷ [])
    ∙ ground (arith, letters-capital n (i / 26))

-- The label of the problem at `index` is written in capital letters, and read as a number, with A
-- for 1 and Z for 26, it is `index + 1`: different problems have different labels.
pub label_roundtrip :
    (index : ℕ)
    → (number 0 (get_label_for_problem index) ≡ index + 1)
      × (all is_letter (get_label_for_problem index) ≡ true)
unfolding get_label_for_problem
label_roundtrip index =
    (number-letters (index + 1) (index + 1) (omega arith), letters-capital (index + 1) (index + 1))
