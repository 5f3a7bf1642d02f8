-- ===== src/Organization/Slots.antt =====
-- The slots of an organization and its members.
use study_sys.Prelude.{
  ℕ, ◌+◌, ◌≤◌, ◌≡◌, refl, Bool, true, false, not, ◌||◌, Option, none, some, List, [], ◌∷◌, ◌==◌,
  leb, if◌then◌else◌, any, all, count, elem, arith, Bool-cases, inl, inr, ◌⊎◌, if_split,
}
use study_sys.Organization.{
  administers, Organization, OrganizationRequest, Tables, refused, denied, Decision, is_member,
  add_member, member_count, is_approved, add_approved, is_full, review_shown, review,
  save_decisions, is_shown,
}

member_count-add_member :
    (user org k : ℕ) (ms : List (ℕ × ℕ))
    → member_count k (add_member user org ms) ≤ member_count k ms + (if org == k then 1 else 0)
unfolding member_count add_member
member_count-add_member user org k ms = ground arith

member_count-add_approved :
    (shown : OrganizationRequest → Bool) (decide : ℕ → Decision) (k : ℕ)
    (rs : List OrganizationRequest) (ms : List (ℕ × ℕ))
    → member_count k (add_approved shown decide rs ms)
      ≤ member_count k ms + count (is_approved shown decide) rs
unfolding add_approved
member_count-add_approved shown decide k [] ms = omega arith
member_count-add_approved shown decide k (r ∷ rs) ms = ground (
  arith,
  member_count-add_member r.user r.organization k ms,
  member_count-add_approved shown decide k rs (add_member r.user r.organization ms),
  member_count-add_approved shown decide k rs ms,
)

-- No more members than slots, if the number of slots is set.
abbrev pub is_within : Option ℕ → ℕ → Bool
is_within none members = true
is_within (some slots) members = leb members slots

add_member-is_member :
    (user org : ℕ) (ms : List (ℕ × ℕ)) → is_member user org (add_member user org ms) ≡ true
unfolding add_member
add_member-is_member user org ms = ground arith

add_member_keeps :
    (user org u o : ℕ) (ms : List (ℕ × ℕ))
    → is_member u o ms ≡ true
    → is_member u o (add_member user org ms) ≡ true
unfolding add_member
add_member_keeps user org u o ms h = ground (arith, h)

add_approved_keeps :
    (shown : OrganizationRequest → Bool) (decide : ℕ → Decision) (u o : ℕ)
    (rs : List OrganizationRequest) (ms : List (ℕ × ℕ))
    → is_member u o ms ≡ true
    → is_member u o (add_approved shown decide rs ms) ≡ true
unfolding add_approved
add_approved_keeps shown decide u o [] ms h = h
add_approved_keeps shown decide u o (r ∷ rs) ms h = add_approved_keeps shown decide u o rs _ (
    if_split (λ l. is_member u o l ≡ true) (is_approved shown decide r)
      (λ yes. add_member_keeps r.user r.organization u o ms h) (λ no. h))

-- The user of an approved request is a member.
abbrev pub is_settled :
    (OrganizationRequest → Bool) → (ℕ → Decision) → List (ℕ × ℕ) → OrganizationRequest → Bool
is_settled shown decide ms r =
    not (is_approved shown decide r) || is_member r.user r.organization ms

add_approved-settled :
    (shown : OrganizationRequest → Bool) (decide : ℕ → Decision) (rs : List OrganizationRequest)
    (ms : List (ℕ × ℕ))
    → all (is_settled shown decide (add_approved shown decide rs ms)) rs ≡ true
unfolding add_approved
add_approved-settled shown decide [] ms = refl
add_approved-settled shown decide (r ∷ rs) ms = ground (
  arith,
  add_approved-settled shown decide rs (add_member r.user r.organization ms),
  add_approved-settled shown decide rs ms,
  add_approved_keeps shown decide r.user r.organization rs (add_member r.user r.organization ms)
      (add_member-is_member r.user r.organization ms),
)

-- What a review leaves that is not refused.
pub record IsReviewed (org : Organization) (shown : OrganizationRequest → Bool)
    (decide : ℕ → Decision) (t u : Tables) : Type 0 where
  pub within : is_within org.slots (member_count org.id u.members) ≡ true
  pub settled : all (is_settled shown decide u.members) t.requests ≡ true

within_slots :
    (slots : Option ℕ) (approvals before after : ℕ)
    → is_full slots approvals before ≡ false
    → after ≤ before + approvals
    → is_within slots after ≡ true
unfolding is_full
within_slots none approvals before after h le = refl
within_slots (some k) approvals before after h le = ground (arith, h, le)

review_shown_lem :
    (org : Organization) (shown : OrganizationRequest → Bool) (decide : ℕ → Decision) (t : Tables)
    → (review_shown org shown decide t ≡ (t, refused))
      ⊎ IsReviewed org shown decide t (review_shown org shown decide t).0
unfolding review_shown save_decisions
review_shown_lem org shown decide t =
    elim (Bool-cases (
      is_full org.slots (count (is_approved shown decide) t.requests)
        (member_count org.id t.members))) [
          | inl full ↦ inl (rw (full, review_shown) refl)
          | inr free ↦ inr (
              rw (free, review_shown)
                record {
                  within =
                      within_slots org.slots _ _ _ free
                        (member_count-add_approved shown decide org.id t.requests t.members);
                  settled = add_approved-settled shown decide t.requests t.members;
                })
        ]

-- A review is refused or denied, and then changes nothing, or the organization has no more members
-- than slots afterwards, and the user of each request that it approves is a member.
pub review_lem :
    (org : Organization) (viewer : ℕ) (decide : ℕ → Decision) (t : Tables)
    → (review org viewer decide t ≡ (t, refused))
      ⊎ (review org viewer decide t ≡ (t, denied))
      ⊎ IsReviewed org
          (is_shown (elem viewer org.admins) viewer org t.classes)
          decide
          t
          (review org viewer decide t).0
unfolding review
review_lem org viewer decide t = elim (Bool-cases (elem viewer org.admins)) [
  | inl all_of ↦
      rw (all_of, review)
        (elim (review_shown_lem org (is_shown true viewer org t.classes) decide t) [
          | inl full ↦ inl full
          | inr over ↦ inr (inr over)
        ])
  | inr some_of ↦
      rw (some_of, review)
        (elim (Bool-cases (any (administers viewer org) t.classes)) [
          | inr none_of ↦ rw (none_of) (inr (inl refl))
          | inl classes ↦
              rw (classes)
                (elim (review_shown_lem org (is_shown false viewer org t.classes) decide t) [
                  | inl full ↦ inl full
                  | inr over ↦ inr (inr over)
                ])
        ])
]
