-- ===== src/Prelude/Dict.antt =====
-- Python dictionaries with integer keys, as association lists: the newest binding stands first,
-- and an assignment replaces the old one.
use Prim.Native.Nat.{ℕ}
use mathlib.Core.Path.{◌≡◌}
use mathlib.Core.Bool.{Bool, true, false}
use mathlib.Core.Option.{Option, none, some}
use mathlib.Core.List.{List, [], ◌∷◌}
use native.Mathlib.Omega.{arith}
use study_sys.Prelude.Tests.{◌==◌, if◌then◌else◌}

module _ {ℓ} {V : Type ℓ} where
  abbrev pub lookup : ℕ → List (ℕ × V) → Option V
  lookup k [] = none
  lookup k ((j, v) ∷ m) = if j == k then some v else lookup k m

  -- `del d[k]`, without its test
  abbrev pub delete : ℕ → List (ℕ × V) → List (ℕ × V)
  delete k [] = []
  delete k ((j, v) ∷ m) = if j == k then delete k m else (j, v) ∷ delete k m

  -- `d[k] = v`
  abbrev pub insert : ℕ → V → List (ℕ × V) → List (ℕ × V)
  insert k v m = (k, v) ∷ delete k m

  -- `k in d`
  abbrev pub contains : ℕ → List (ℕ × V) → Bool
  contains k m = elim (lookup k m) [ none ↦ false | some _ ↦ true ]

  pub lookup-delete :
      (k j : ℕ) (m : List (ℕ × V)) → lookup j (delete k m) ≡ (if k == j then none else lookup j m)
  lookup-delete k j [] = ground arith
  lookup-delete k j ((i, v) ∷ m) = ground (arith, lookup-delete k j m)

  pub lookup-insert :
      (k j : ℕ) (v : V) (m : List (ℕ × V))
      → lookup j (insert k v m) ≡ (if k == j then some v else lookup j m)
  lookup-insert k j v m = ground (arith, lookup-delete k j m)
