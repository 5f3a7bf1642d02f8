-- ===== src/Paginator/Ranges.antt =====
-- The page ranges: where they lie.
use study_sys.Prelude.{
  ℕ, zero, suc, ◌≡◌, ◌≤◌, ◌<◌, ◌+◌, ◌-◌, Bool, true, false, List, [], ◌∷◌, ltb, leb, min, max, all,
  arith, refl, ◌⊎◌, inl, inr, Bool-cases,
}
use study_sys.Paginator.{
  DiggPaginator, PageRanges, page_list, is_empty, centre, move_down, add_leading, add_trailing,
  normalize, page,
}

all_below : (a n b : ℕ) → a + n ≤ b → all (λ p. ltb p b) (page_list a n) ≡ true
all_below a zero b le = refl
all_below a (suc n) b le = ground (arith, le, all_below (a + 1) n b (omega arith))

all_above : (a n b : ℕ) → b < a → all (λ p. ltb b p) (page_list a n) ≡ true
all_above a zero b lt = refl
all_above a (suc n) b lt = ground (arith, lt, all_above (a + 1) n b (omega arith))

-- The paginator has pages to show: a body, and an active page among the pages.
pub record IsPage (d : DiggPaginator) (number : ℕ) : Type 0 where
  pub has_body : 1 ≤ d.body
  pub from_one : 1 ≤ number
  pub to_last : number ≤ d.num_pages

-- The range around the active page, when it is as long as `body` unless all pages are fewer.
record IsAround (d : DiggPaginator) (number : ℕ) (r : PageRanges) : Type 0 where
  low : r.first ≤ number
  high : number ≤ r.last
  bound : r.last ≤ d.num_pages
  length : r.first + d.body ≤ max (r.last + 1) d.body
  no_leading : r.leading ≡ []
  no_trailing : r.trailing ≡ []

around :
    (d : DiggPaginator) (number : ℕ)
    → IsPage d number
    → IsAround d number (move_down d (centre d number))
unfolding move_down centre
around d number ok = record {
  low = ground (arith, ok);
  high = ground (arith, ok);
  bound = ground (arith, ok);
  length = ground (arith, ok);
  no_leading = ground (arith, ok);
  no_trailing = ground (arith, ok);
}

-- The leading pages are none, or they and the `margin` after them lie before the main range, which
-- can grow to `body` pages.
record IsLed (d : DiggPaginator) (number : ℕ) (r : PageRanges) : Type 0 where
  low : r.first ≤ number
  high : number ≤ r.last
  no_trailing : r.trailing ≡ []
  leading :
      (r.leading ≡ [])
      ⊎ ((r.leading ≡ page_list 1 d.tail)
          × (d.tail + d.margin < r.first)
          × (r.first + d.body ≤ d.num_pages + 1))

led :
    (d : DiggPaginator) (number : ℕ) (r : PageRanges)
    → IsPage d number
    → IsAround d number r
    → IsLed d number (add_leading d number r)
unfolding add_leading
led d number r ok near = elim (Bool-cases (leb r.first (d.tail + d.margin))) [
  | inl e ↦ rw (e) record {
    low = ground (arith, ok);
    high = ground (arith, ok, near);
    no_trailing = near.no_trailing;
    leading = inl near.no_leading;
  }
  | inr e ↦ rw (e) record {
    low = near.low;
    high = near.high;
    no_trailing = near.no_trailing;
    leading = inr (refl, ground (arith, e), ground (arith, e, near));
  }
]

-- The ranges are in order, and the active page is in the main one.
record IsOrdered (d : DiggPaginator) (number : ℕ) (r : PageRanges) : Type 0 where
  low : r.first ≤ number
  high : number ≤ r.last
  leading : all (λ p. ltb p r.first) r.leading ≡ true
  trailing : all (λ p. ltb r.last p) r.trailing ≡ true

leading_below :
    (d : DiggPaginator) (number : ℕ) (r : PageRanges) (b : ℕ)
    → IsLed d number r
    → r.first ≤ b
    → all (λ p. ltb p b) r.leading ≡ true
leading_below d number r b l le = elim l.leading [
  | inl e ↦ rw (e) refl
  | inr (e, lt, room) ↦ rw (e) (all_below 1 d.tail b (omega arith))
]

all_empty : (p : ℕ → Bool) (xs : List ℕ) → is_empty xs ≡ true → all p xs ≡ true
all_empty p [] e = refl
all_empty p (x ∷ xs) e = ground (arith, e)

none_after :
    (d : DiggPaginator) (number : ℕ) (r : PageRanges) (b : ℕ)
    → IsLed d number r
    → all (λ p. ltb b p) r.trailing ≡ true
none_after d number r b l = rw (l.no_trailing) refl

as_it_is :
    (d : DiggPaginator) (number : ℕ) (r : PageRanges) → IsLed d number r → IsOrdered d number r
as_it_is d number r l = record {
  low = l.low;
  high = l.high;
  leading = leading_below d number r r.first l (omega arith);
  trailing = none_after d number r r.last l;
}

stays_up :
    (d : DiggPaginator) (number : ℕ) (r : PageRanges)
    → IsLed d number r
    → is_empty r.leading ≡ false
    → r.first ≤ min (d.num_pages + 1 - d.body) (max (number - d.padding) r.first)
stays_up d number r l g = elim l.leading [
  | inl e ↦ ground (arith, e, g)
  | inr (e, lt, room) ↦ omega (arith, room)
]

ordered :
    (d : DiggPaginator) (number : ℕ) (r : PageRanges)
    → IsPage d number
    → IsLed d number r
    → IsOrdered d number (add_trailing d number r)
unfolding add_trailing
ordered d number r ok l = elim (Bool-cases d.align_left) [
  | inl e ↦ simp (e) (as_it_is d number r l)
  | inr e ↦ elim (Bool-cases (leb (d.num_pages + 1) (r.last + (d.tail + d.margin)))) [
    | inl f ↦
        simp (e, f)
          (elim (Bool-cases (is_empty r.leading)) [
            | inl g ↦ rw (g) record {
              low = ok.from_one;
              high = ok.to_last;
              leading = all_empty (λ p. ltb p 1) r.leading g;
              trailing = none_after d number r d.num_pages l;
            }
            | inr g ↦ rw (g) record {
              low = omega (arith, l.low);
              high = ok.to_last;
              leading =
                  leading_below d number r
                    (min (d.num_pages + 1 - d.body) (max (number - d.padding) r.first)) l
                    (stays_up d number r l g);
              trailing = none_after d number r d.num_pages l;
            }
          ])
    | inr f ↦
        simp (e, f)
          record {
            low = l.low;
            high = l.high;
            leading = leading_below d number r r.first l (omega arith);
            trailing = all_above (d.num_pages + 1 - d.tail) d.tail r.last (ground (arith, f));
          }
  ]
]

all_below_mono :
    (a b : ℕ) (xs : List ℕ) → a ≤ b → all (λ p. ltb p a) xs ≡ true → all (λ p. ltb p b) xs ≡ true
all_below_mono a b [] le e = refl
all_below_mono a b (x ∷ xs) le e = ground (arith, le, e, all_below_mono a b xs le)

all_above_mono :
    (a b : ℕ) (xs : List ℕ) → b ≤ a → all (λ p. ltb a p) xs ≡ true → all (λ p. ltb b p) xs ≡ true
all_above_mono a b [] le e = refl
all_above_mono a b (x ∷ xs) le e = ground (arith, le, e, all_above_mono a b xs le)

-- For an active page among the pages, the main range lies among the pages and has the active one,
-- the leading pages come before it and the trailing ones after it, if the body is not 0.
pub page_in_order :
    (d : DiggPaginator) (number : ℕ)
    → IsPage d number
    → let r = page d number in
      (1 ≤ r.first)
      × (r.first ≤ number)
      × (number ≤ r.last)
      × (r.last ≤ d.num_pages)
      × (all (λ p. ltb p r.first) r.leading ≡ true)
      × (all (λ p. ltb r.last p) r.trailing ≡ true)
unfolding page normalize
page_in_order d number ok =
    let near = move_down d (centre d number) in
    let main_led = add_leading d number near in
    let t = add_trailing d number main_led in
    let o = ordered d number main_led ok (led d number near ok (around d number ok)) in
    (
      omega arith,
      omega (arith, o.low, ok.from_one),
      omega (arith, o.high, ok.to_last),
      omega arith,
      all_below_mono t.first (max t.first 1) t.leading (omega arith) o.leading,
      all_above_mono t.last (min t.last d.num_pages) t.trailing (omega arith) o.trailing,
    )
