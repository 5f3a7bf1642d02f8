-- ===== src/ProblemData/Shape.antt =====
-- The shape of what the compiler writes.
use study_sys.Prelude.{
  ◌||◌, ℕ, ◌+◌, ◌≡◌, ◌∙◌, refl, Bool, true, not, ◌&&◌, ◌||◌, Option, none, some, List, [], ◌∷◌,
  ◌++◌, String, str_eq, if◌then◌else◌, all, arith, count, subst, Bool-cases, if_split, inl, inr,
  all-append,
}
use study_sys.ProblemData.{
  ProblemTestCase, Result, ok, failed, value_error, ◌>>=◌, Checker, CaseData, Batch, Entry, single,
  batch, World, Draft, has_file, some_text, end_open, close_batch, check_files, case_data,
}
use study_sys.ProblemData.Compiler.{is_nil, is_none}

-- The file is one of the files; with no name it is not read.
abbrev pub is_file : World → Option String → Bool
is_file w none = true
is_file w (some f) = w.has_generator || has_file f w.files

abbrev pub reads_files : World → CaseData → Bool
reads_files w c = is_file w c.input && is_file w c.output

-- A case outside a batch has points, a batch has a case, and the cases read files that are there.
unfoldable pub is_valid : World → Entry → Bool
is_valid w (single b c) = not (is_none c.points) && reads_files w c
is_valid w (batch b) = not (is_nil b.batched) && all (reads_files w) b.batched

-- How many cases of an entry, or of the entries, read an input that satisfies `q`.
unfoldable pub count_in : (Option String → Bool) → Entry → ℕ
count_in q (single b c) = if q c.input then 1 else 0
count_in q (batch b) = count (λ c. q c.input) b.batched

unfoldable pub total : (Option String → Bool) → List Entry → ℕ
total q [] = 0
total q (e ∷ es) = count_in q e + total q es

pub total-append :
    (q : Option String → Bool) (es fs : List Entry) → total q (es ++ fs) ≡ total q es + total q fs
unfolding total
total-append q [] fs = omega arith
total-append q (e ∷ es) fs = omega (arith, total-append q es fs)

abbrev pub is_valid_open : World → Option Batch → Bool
is_valid_open w none = true
is_valid_open w (some b) = all (reads_files w) b.batched

abbrev pub count_open : (Option String → Bool) → Option Batch → ℕ
count_open q none = 0
count_open q (some b) = count (λ c. q c.input) b.batched

-- The drafts of which the entries are valid, and `n` cases read an input that satisfies `q`.
pub record IsDraft (w : World) (q : Option String → Bool) (n : ℕ) (d : Draft) : Type 0 where
  pub entries : all (is_valid w) d.cases ≡ true
  pub in_batch : is_valid_open w d.open_batch ≡ true
  pub counted : total q d.cases + count_open q d.open_batch ≡ n

-- Entries that are valid, of which `n` cases read an input that satisfies `q`.
pub record AreEntries (w : World) (q : Option String → Bool) (n : ℕ) (es : List Entry)
    : Type 0 where
  pub entries : all (is_valid w) es ≡ true
  pub counted : total q es ≡ n

-- A result that is there has the property.
abbrev pub Holds : {A : Type 0} → (A → Type 0) → Result A → Type 0
Holds P (ok a) = P a
Holds P (failed e) = Unit {0}
Holds P value_error = Unit {0}

pub Holds-bind :
    {A B : Type 0} (P : A → Type 0) (Q : B → Type 0) (r : Result A) (f : A → Result B)
    → Holds P r
    → ((a : A) → P a → Holds Q (f a))
    → Holds Q (r >>= f)
Holds-bind P Q (ok a) f h k = k a h
Holds-bind P Q (failed e) f h k = tt
Holds-bind P Q value_error f h k = tt

pub Holds-trivial : {A : Type 0} (r : Result A) → Holds (λ a. Unit {0}) r
Holds-trivial (ok a) = tt
Holds-trivial (failed e) = tt
Holds-trivial value_error = tt

pub close_batch-AreEntries :
    (w : World) (q : Option String → Bool) (b : Batch) (l : List CaseData) (es : List Entry)
    → b.batched ≡ l
    → all (is_valid w) es ≡ true
    → all (reads_files w) b.batched ≡ true
    → Holds (AreEntries w q (total q es + count (λ c. q c.input) b.batched)) (close_batch b es)
unfolding close_batch is_valid count_in total
close_batch-AreEntries w q b [] es e h k = rw (e, close_batch) tt
close_batch-AreEntries w q b (c ∷ cs) es e h k =
    rw (e, close_batch)
      (record {
        entries = all-append (is_valid w) es (batch b ∷ []) ∙ ground (arith, h, e, k);
        counted = total-append q es (batch b ∷ []) ∙ ground (arith, e);
      })

pub end_open-AreEntries :
    (w : World) (q : Option String → Bool) (n : ℕ) (o : Option Batch) (es : List Entry)
    → all (is_valid w) es ≡ true
    → is_valid_open w o ≡ true
    → total q es + count_open q o ≡ n
    → Holds (AreEntries w q n) (end_open o es)
unfolding end_open
end_open-AreEntries w q n none es h k c = record { entries = h; counted = omega (arith, c) }
end_open-AreEntries w q n (some b) es h k c =
    subst (λ m. Holds (AreEntries w q m) (close_batch b es)) c
      (close_batch-AreEntries w q b b.batched es refl h k)

is_file-some_text :
    (w : World) (s : String)
    → (w.has_generator || has_file s w.files) ≡ true
    → is_file w (some_text s) ≡ true
is_file-some_text w s e = elim (Bool-cases (str_eq s "")) [
  | inl empty ↦ rw (empty) refl
  | inr named ↦ rw (named) e
]

pub check_files-reads_files :
    (w : World) (i : ℕ) (r : ProblemTestCase) (points : Option ℕ) (checker : Option Checker)
    → Holds (λ u. reads_files w (case_data r points checker) ≡ true) (check_files w i r)
unfolding check_files case_data
check_files-reads_files w i r points checker =
    let both : (w.has_generator || has_file r.input_file w.files) ≡ true
        → (w.has_generator || has_file r.output_file w.files) ≡ true
        → reads_files w (case_data r points checker) ≡ true =
      λ x y. rw (is_file-some_text w r.input_file x, is_file-some_text w r.output_file y) refl in
    let P : Unit {0} → Type 0 = λ u. reads_files w (case_data r points checker) ≡ true in
    if_split (Holds P) w.has_generator (λ made. both (ground (arith, made)) (ground (arith, made)))
      (λ read.
        if_split (Holds P) (not (has_file r.input_file w.files)) (λ gone. tt)
          (λ here.
            if_split (Holds P) (not (has_file r.output_file w.files)) (λ lost. tt)
              (λ there. both (ground (arith, here)) (ground (arith, there)))))
