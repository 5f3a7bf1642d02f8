-- ===== src/Paginator.antt =====
-- judge/utils/diggpaginator.py: which page links a page shows. The pages that the source computes
-- below 1 are 0 here; the last step moves both to 1, and no test before it tells them apart.
pub mod Ranges
use study_sys.Prelude.{
  ℕ, zero, suc, ◌+◌, ◌-◌, ◌/◌, Bool, true, false, Option, none, some, List, [], ◌∷◌, ◌++◌, map, ltb,
  leb, if◌then◌else◌, min, max,
}

pub record DiggPaginator : Type 0 where
  pub body : ℕ
  pub tail : ℕ
  pub align_left : Bool
  pub margin : ℕ
  pub padding : ℕ
  pub num_pages : ℕ

-- `int(math.ceil(self.body / 2.0) - 1)`, for a body of one page or more
abbrev pub max_padding : ℕ → ℕ
max_padding body = (body + 1) / 2 - 1

-- The constructor: nothing is the ValueError for a padding that is too large.
unfoldable pub init_padding : ℕ → Option ℕ → Option ℕ
init_padding body none = some (min 4 (max_padding body))
init_padding body (some padding) = if ltb (max_padding body) padding then none else some padding

-- The first and the last page of the main range, the leading and the trailing pages.
pub record PageRanges : Type 0 where
  pub first : ℕ
  pub last : ℕ
  pub leading : List ℕ
  pub trailing : List ℕ

-- `list(range(a, a + n))`
abbrev pub page_list : ℕ → ℕ → List ℕ
page_list a zero = []
page_list a (suc n) = a ∷ page_list (a + 1) n

abbrev pub is_empty : List ℕ → Bool
is_empty [] = true
is_empty (x ∷ xs) = false

-- The active page in the middle of `body` pages, moved up when the first page is below 1.
unfoldable pub centre : DiggPaginator → ℕ → PageRanges
centre d number =
    let half = (d.body + 1) / 2 in
    if ltb number half
    then record {
      first = 1;
      last = number + d.body / 2 + (half - number);
      leading = [];
      trailing = [];
    }
    else record {
      first = number + 1 - half;
      last = number + d.body / 2;
      leading = [];
      trailing = [];
    }

-- Moved down when the last page is too high.
unfoldable pub move_down : DiggPaginator → PageRanges → PageRanges
move_down d r =
    if ltb d.num_pages r.last
    then record r { first = r.first - (r.last - d.num_pages); last = d.num_pages }
    else r

unfoldable pub add_leading : DiggPaginator → ℕ → PageRanges → PageRanges
add_leading d number r =
    if leb r.first (d.tail + d.margin)
    then record r { first = 1; last = max d.body (min (number + d.padding) r.last) }
    else record r { leading = page_list 1 d.tail }

unfoldable pub add_trailing : DiggPaginator → ℕ → PageRanges → PageRanges
add_trailing d number r =
    if d.align_left
    then r
    else if leb (d.num_pages + 1) (r.last + (d.tail + d.margin))
    then if is_empty r.leading then record r { first = 1; last = d.num_pages } else record r {
      first = min (d.num_pages + 1 - d.body) (max (number - d.padding) r.first);
      last = d.num_pages;
    }
    else record r { trailing = page_list (d.num_pages + 1 - d.tail) d.tail }

unfoldable pub normalize : DiggPaginator → PageRanges → PageRanges
normalize d r = record r { first = max r.first 1; last = min r.last d.num_pages }

unfoldable pub page : DiggPaginator → ℕ → PageRanges
page d number =
    normalize d (add_trailing d number (add_leading d number (move_down d (centre d number))))

-- `x + ((x and y) and [False]) + y`
unfoldable pub join_ranges : List (Option ℕ) → List (Option ℕ) → List (Option ℕ)
join_ranges [] ys = ys
join_ranges (x ∷ xs) [] = x ∷ xs
join_ranges (x ∷ xs) (y ∷ ys) = (x ∷ xs) ++ (none ∷ (y ∷ ys))

-- `page_range`: the pages, with a gap (`False`) between two ranges.
unfoldable pub page_range : PageRanges → List (Option ℕ)
unfolding join_ranges
page_range r =
    let main_range = page_list r.first (r.last + 1 - r.first) in
    join_ranges (join_ranges (map some r.leading) (map some main_range)) (map some r.trailing)
