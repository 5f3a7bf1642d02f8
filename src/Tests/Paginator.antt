-- ===== src/Tests/Paginator.antt =====
-- Twenty pages, the tenth of which is shown.
use study_sys.Prelude.{◌≡◌, ◌≤◌, true, false, none, some, [], ◌∷◌, ltb, all, refl, arith}
use study_sys.Paginator.{
  DiggPaginator, centre, move_down, add_leading, add_trailing, normalize, page, join_ranges,
  page_range,
}
use study_sys.Paginator.Ranges.{IsPage, page_in_order}

abbrev twenty : DiggPaginator
twenty = record { body = 5; tail = 2; align_left = false; margin = 2; padding = 2; num_pages = 20 }

links :
    page_range (page twenty 10)
    ≡ some 1
      ∷ some 2
      ∷ none
      ∷ some 8
      ∷ some 9
      ∷ some 10
      ∷ some 11
      ∷ some 12
      ∷ none
      ∷ some 19
      ∷ some 20
      ∷ []
unfolding page_range page centre move_down add_leading add_trailing normalize join_ranges
links = refl

twenty-IsPage : IsPage twenty 10
twenty-IsPage = record { has_body = omega arith; from_one = omega arith; to_last = omega arith }

page_in_order_example :
    let r = page twenty 10 in
    (1 ≤ r.first)
    × (r.first ≤ 10)
    × (10 ≤ r.last)
    × (r.last ≤ 20)
    × (all (λ p. ltb p r.first) r.leading ≡ true)
    × (all (λ p. ltb r.last p) r.trailing ≡ true)
page_in_order_example = page_in_order twenty 10 twenty-IsPage
