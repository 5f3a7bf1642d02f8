-- ===== src/Ratings/Runs.antt =====
-- `tie_ranker` on a list that is cut into runs of equal keys.
use study_sys.Prelude.{
  if◌then◌else◌, ℕ, zero, suc, ◌≡◌, ◌+◌, ◌∙◌, Bool, true, false, Option, none, some, List, [], ◌∷◌,
  ◌++◌, refl, arith, ap, sym, Bool-cases, inl, inr,
}
use study_sys.Ratings.{Key, key_eq, is_last, repeat, rank_from, tie_ranker}

-- A key, and how many more participants than one have it.
pub record Run : Type 0 where
  pub key : Key
  pub more : ℕ

abbrev pub copies : ℕ → Key → List Key → List Key
copies zero k rest = rest
copies (suc n) k rest = k ∷ copies n k rest

abbrev pub spread : List Run → List Key
spread [] = []
spread (r ∷ rs) = r.key ∷ copies r.more r.key (spread rs)

-- Twice the mean of the places of each participant, when `before` participants come first: the
-- places of a run of `k` are `before + 1` up to `before + k`.
unfoldable pub mean_places : ℕ → List Run → List ℕ
mean_places before [] = []
mean_places before (r ∷ rs) =
    repeat (suc r.more) ((before + 1) + (before + suc r.more))
    ++ mean_places (before + suc r.more) rs

-- The keys of neighbouring runs differ, and the first is not `last`.
abbrev pub are_runs : Option Key → List Run → Bool
are_runs last [] = true
are_runs last (r ∷ rs) = if is_last r.key last then false else are_runs (some r.key) rs

key_eq_self : (k : Key) → key_eq k k ≡ true
key_eq_self k = ground arith

append_nil : (xs : List ℕ) → xs ++ [] ≡ xs
append_nil [] = refl
append_nil (x ∷ xs) = ap (λ ys. x ∷ ys) (append_nil xs)

rank_from-same :
    {r r' d d' b b' : ℕ} (last : Option Key) (items : List Key)
    → r ≡ r'
    → d ≡ d'
    → b ≡ b'
    → rank_from r d last b items ≡ rank_from r' d' last b' items
rank_from-same last items e f g = cc

rank_from-copies :
    (rank delta buf n : ℕ) (k : Key) (rest : List Key)
    → rank_from rank delta (some k) buf (copies n k rest)
      ≡ rank_from rank (delta + n) (some k) (buf + n) rest
unfolding rank_from
rank_from-copies rank delta buf zero k rest =
    rank_from-same (some k) rest refl (omega arith) (omega arith)
rank_from-copies rank delta buf (suc n) k rest = rw (key_eq_self k) (
    rank_from-copies rank (delta + 1) (buf + 1) n k rest
    ∙ rank_from-same (some k) rest refl (omega arith) (omega arith))

rank_from-runs :
    (b m : ℕ) (k : Key) (rs : List Run)
    → are_runs (some k) rs ≡ true
    → rank_from (b + 1) (suc m) (some k) (suc m) (spread rs)
      ≡ repeat (suc m) ((b + 1) + (b + suc m)) ++ mean_places (b + suc m) rs
unfolding rank_from mean_places
rank_from-runs b m k [] ok =
    ap (repeat (suc m)) (omega arith) ∙ sym (append_nil (repeat (suc m) ((b + 1) + (b + suc m))))
rank_from-runs b m k (r ∷ rs) ok = elim (Bool-cases (key_eq r.key k)) [
  | inl e ↦ ground (arith, e, ok)
  | inr e ↦ rw (e) (
      ap
        (λ x.
          repeat (suc m) x
          ++ rank_from (b + 1 + suc m) 1 (some r.key) 1 (copies r.more r.key (spread rs)))
        (omega arith)
      ∙ ap (λ xs. repeat (suc m) ((b + 1) + (b + suc m)) ++ xs)
          (rank_from-copies (b + 1 + suc m) 1 1 r.more r.key (spread rs)
            ∙ rank_from-same (some r.key) (spread rs) (omega arith) (omega arith) (omega arith)
            ∙ rank_from-runs (b + suc m) r.more r.key rs (ground (arith, e, ok))))
]

-- On a list of participants in which equal keys stand together, each rank is the mean of the
-- places of the participants with that key (both sides are doubled).
pub tie_ranker-mean_places :
    (runs : List Run) → are_runs none runs ≡ true → tie_ranker (spread runs) ≡ mean_places 0 runs
unfolding tie_ranker rank_from mean_places
tie_ranker-mean_places [] ok = refl
tie_ranker-mean_places (r ∷ rs) ok =
    rank_from-copies 1 1 1 r.more r.key (spread rs)
    ∙ rank_from-same (some r.key) (spread rs) refl (omega arith) (omega arith)
    ∙ rank_from-runs 0 r.more r.key rs ok
