-- ===== src/InfinitePage.antt =====
-- judge/utils/infinite_paginator.py: pages of a query that is not counted. A page knows how many
-- objects follow it, up to the padding.
pub mod Pages
use study_sys.Prelude.{
  ℕ, suc, zero, ◌+◌, ◌-◌, ◌*◌, ◌/◌, Bool, true, false, ◌&&◌, not, Option, none, some, List, [], ◌∷◌,
  ◌++◌, ltb, leb, ◌==◌, if◌then◌else◌, length, take, drop, min, max,
}

-- `InfinitePage`; the paginator that it carries is not used by it.
pub record InfinitePage {ℓ} (A : Type ℓ) : Type ℓ where
  pub object_list : List A
  pub number : ℕ
  pub unfiltered_queryset : List A
  pub page_size : ℕ
  pub pad_pages : ℕ

-- `queryset[a:b]`
abbrev pub slice {ℓ} : {A : Type ℓ} → ℕ → ℕ → List A → List A
slice a b xs = take (b - a) (drop a xs)

-- An item of `page_range`: False stands for the dots.
pub data Item : Type 0 where
  dots : Item
  page : ℕ → Item

-- `range(start, end + 1)` as pages, by their number.
unfoldable pub pages_from : ℕ → ℕ → List Item
pages_from start zero = []
pages_from start (suc n) = page start ∷ pages_from (start + 1) n

-- `int(ceil(a / b))` of a positive b.
abbrev pub ceil_div : ℕ → ℕ → ℕ
ceil_div a b = (a + (b - 1)) / b

module _ {ℓ} {A : Type ℓ} where
  abbrev pub after_up_to_pad : InfinitePage A → ℕ
  after_up_to_pad p =
      let first_after = p.number * p.page_size in
      length (slice first_after (first_after + p.pad_pages * p.page_size + 1) p.unfiltered_queryset)

  abbrev pub has_next : InfinitePage A → Bool
  has_next p = ltb 0 (after_up_to_pad p)

  abbrev pub has_previous : InfinitePage A → Bool
  has_previous p = ltb 1 p.number

  -- None is `EmptyPage`.
  unfoldable pub next_page_number : InfinitePage A → Option ℕ
  next_page_number p = if not (has_next p) then none else some (p.number + 1)

  unfoldable pub previous_page_number : InfinitePage A → Option ℕ
  previous_page_number p = if leb p.number 1 then none else some (p.number - 1)

  abbrev pub start_index : InfinitePage A → ℕ
  start_index p = p.page_size * (p.number - 1) + 1

  abbrev pub end_index : InfinitePage A → ℕ
  end_index p = start_index p + length p.object_list

  -- The ends of `main_range`.
  abbrev pub main_start : InfinitePage A → ℕ
  main_start p = max 1 (p.number - p.pad_pages)

  abbrev pub main_end : InfinitePage A → ℕ
  main_end p = p.number + min (ceil_div (after_up_to_pad p) p.page_size) p.pad_pages

  abbrev pub has_trailing : InfinitePage A → Bool
  has_trailing p = ltb (p.pad_pages * p.page_size) (after_up_to_pad p)

  -- The last page of `leading_range`, `range(1, min(3, main_range[0]))`; 0 when it is empty.
  abbrev pub leading_end : InfinitePage A → ℕ
  leading_end p = min 3 (main_start p) - 1

  unfoldable pub page_range : InfinitePage A → List Item
  unfolding pages_from
  page_range p =
      let gap = not (leading_end p == 0) && ltb (leading_end p + 1) (main_start p) in
      pages_from 1 (leading_end p)
      ++ (if gap then dots ∷ [] else [])
      ++ pages_from (main_start p) (main_end p + 1 - main_start p)
      ++ (if has_trailing p then dots ∷ [] else [])

  abbrev pub is_empty : List A → Bool
  is_empty [] = true
  is_empty (x ∷ xs) = false

  abbrev pub make_page : List A → (number page_size pad_pages : ℕ) → InfinitePage A
  make_page queryset number page_size pad_pages = record {
    object_list = slice ((number - 1) * page_size) (number * page_size) queryset;
    number = number;
    unfiltered_queryset = queryset;
    page_size = page_size;
    pad_pages = pad_pages;
  }

  -- None is `EmptyPage`.
  unfoldable pub infinite_paginate :
      List A → (number page_size pad_pages : ℕ) → Option (InfinitePage A)
  infinite_paginate queryset number page_size pad_pages =
      let page = make_page queryset number page_size pad_pages in
      if ltb number 1
      then none
      else if ltb 1 number && is_empty page.object_list
      then none
      else some page
