-- ===== src/Tests/InfinitePage.antt =====
-- The second of three pages.
use study_sys.Prelude.{ℕ, ◌≡◌, refl, List, [], ◌∷◌, arith}
use study_sys.InfinitePage.{
  InfinitePage, make_page, infinite_paginate, has_next, has_previous, page_range, page,
}
use study_sys.InfinitePage.Pages.{is_page, has_next-is_page}

abbrev five : List ℕ
five = 10 ∷ 20 ∷ 30 ∷ 40 ∷ 50 ∷ []

abbrev second : InfinitePage ℕ
second = make_page five 2 2 2

range_of_second : page_range second ≡ page 1 ∷ page 2 ∷ page 3 ∷ []
unfolding page_range
range_of_second = refl

has_next-is_page_example :
    (has_next second ≡ is_page five 3 2 2) × (has_previous second ≡ is_page five 1 2 2)
unfolding infinite_paginate
has_next-is_page_example = has_next-is_page five 2 2 2 second (omega arith) refl
