-- ===== src/InfinitePage/Pages.antt =====
-- Which pages there are, and what a page knows of the others.
use study_sys.Prelude.{
  ap, ltb→lt, sym, ◌∙◌, subst, ◌||◌, ℕ, suc, zero, ◌+◌, ◌-◌, ◌*◌, ◌<◌, Bool, true, false, ◌&&◌,
  none, some, List, [], ◌∷◌, ◌≡◌, refl, arith, ltb, ◌==◌, length, take, drop, length-drop,
  Bool-cases, inl, inr, min,
}
use native.Mathlib.Nat.{suc-mul}
use study_sys.InfinitePage.{
  make_page, has_previous, InfinitePage, slice, has_next, infinite_paginate, is_empty,
}

mul_step : (n s : ℕ) → 0 < n → n * s ≡ (n - 1) * s + s
mul_step zero s positive = absurd (omega arith)
mul_step (suc n) s positive = suc-mul n s ∙ ap (λ k. k * s + s) (omega arith)

mul_next : (n s : ℕ) → (n + 1) * s ≡ n * s + s
mul_next n s = mul_step (n + 1) s (omega arith) ∙ ap (λ k. k * s + s) (omega arith)

module _ {ℓ} {A : Type ℓ} where
  length-take-min : (n : ℕ) (xs : List A) → length (take n xs) ≡ min n (length xs)
  length-take-min zero xs = omega arith
  length-take-min (suc n) [] = omega arith
  length-take-min (suc n) (x ∷ xs) = omega (arith, length-take-min n xs)

  length-slice : (a b : ℕ) (xs : List A) → length (slice a b xs) ≡ min (b - a) (length xs - a)
  length-slice a b xs = omega (arith, length-take-min (b - a) (drop a xs), length-drop a xs)

  is_empty-length : (xs : List A) → is_empty xs ≡ (length xs == 0)
  is_empty-length [] = refl
  is_empty-length (x ∷ xs) = ground arith

  abbrev pub is_page : List A → ℕ → ℕ → ℕ → Bool
  is_page xs number page_size pad_pages = elim (infinite_paginate xs number page_size pad_pages) [
    | none ↦ false
    | some p ↦ true
  ]

  -- There is a page when its number is positive and, after the first, some object stands on it.
  abbrev pub exists : List A → ℕ → ℕ → Bool
  exists xs number page_size =
      ltb 0 number && (number == 1 || ltb ((number - 1) * page_size) (length xs))

  is_page-exists :
      (xs : List A) (number page_size pad_pages : ℕ)
      → 0 < page_size
      → is_page xs number page_size pad_pages ≡ exists xs number page_size
  unfolding infinite_paginate
  is_page-exists xs number page_size pad_pages positive =
      let a = (number - 1) * page_size in
      elim (Bool-cases (ltb 0 number)) [
        | inl first ↦
            let step = mul_step number page_size (ltb→lt 0 number first) in
            ground (
              arith,
              positive,
              step,
              length-slice a (number * page_size) xs,
              is_empty-length (slice a (number * page_size) xs),
            )
        | inr zeroth ↦ ground (arith, zeroth)
      ]

  -- With pages of a positive size, a page that is given says that there is a next page, or one before,
  -- exactly when the same call with that number gives one, whatever the padding is.
  pub has_next-is_page :
      (xs : List A) (number page_size pad_pages : ℕ) (p : InfinitePage A)
      → 0 < page_size
      → infinite_paginate xs number page_size pad_pages ≡ some p
      → (has_next p ≡ is_page xs (number + 1) page_size pad_pages)
        × (has_previous p ≡ is_page xs (number - 1) page_size pad_pages)
  unfolding infinite_paginate
  has_next-is_page xs number page_size pad_pages p positive accepted =
      let n = length xs in
      let e = is_page-exists xs number page_size pad_pages positive in
      let made : make_page xs number page_size pad_pages ≡ p = ground (arith, accepted) in
      let here : is_page xs number page_size pad_pages ≡ true = rw (accepted, is_page) refl in
      let first : 0 < number = ground (arith, e, here) in
      let after =
        length-slice (number * page_size) (number * page_size + pad_pages * page_size + 1) xs in
      let next_exists : has_next (make_page xs number page_size pad_pages)
          ≡ exists xs (number + 1) page_size =
        ground (arith, first, after) in
      let previous_exists : has_previous (make_page xs number page_size pad_pages)
          ≡ exists xs (number - 1) page_size =
        elim (Bool-cases (ltb 1 number)) [
          | inl later ↦
              let more = ltb→lt 1 number later in
              let step = mul_step (number - 1) page_size (omega (arith, more)) in
              ground (arith, later, e, here, step)
          | inr only ↦ ground (arith, only, first)
        ] in
      subst
        (λ q.
          (has_next q ≡ is_page xs (number + 1) page_size pad_pages)
          × (has_previous q ≡ is_page xs (number - 1) page_size pad_pages))
        made
        (
          next_exists ∙ sym (is_page-exists xs (number + 1) page_size pad_pages positive),
          previous_exists ∙ sym (is_page-exists xs (number - 1) page_size pad_pages positive),
        )
