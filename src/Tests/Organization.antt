-- ===== src/Tests/Organization.antt =====
-- An organization with two slots and one member, and three requests.
use study_sys.Prelude.{ℕ, ◌≡◌, ◌⊎◌, refl, true, false, none, some, [], ◌∷◌, ◌==◌, if◌then◌else◌}
use study_sys.Organization.{
  add_member, add_approved, save_decisions, is_full, review_shown, Organization,
  OrganizationRequest, Tables, pending, Decision, approves, keeps, rejects, review, refused, denied,
  is_shown, member_count,
}
use study_sys.Organization.Slots.{IsReviewed, review_lem}

abbrev org : Organization
org = record { id = 1; is_open = false; slots = some 2; admins = 9 ∷ [] }

abbrev request : ℕ → OrganizationRequest
request id = record { id = id; user = id; organization = 1; state = pending; request_class = none }

abbrev tables : Tables
tables = record {
  organizations = org ∷ [];
  classes = [];
  members = (3, 1) ∷ [];
  students = [];
  requests = request 4 ∷ request 5 ∷ request 6 ∷ [];
}

abbrev one_approved : ℕ → Decision
one_approved id = if id == 4 then approves else if id == 5 then rejects else keeps

review_lem_example :
    (review org 9 one_approved tables ≡ (tables, refused))
    ⊎ (review org 9 one_approved tables ≡ (tables, denied))
    ⊎ IsReviewed org
        (is_shown true 9 org [])
        one_approved
        tables
        (review org 9 one_approved tables).0
review_lem_example = review_lem org 9 one_approved tables

two_members : member_count 1 (review org 9 one_approved tables).0.members ≡ 2
unfolding review review_shown is_full member_count is_shown save_decisions add_approved add_member
two_members = refl

-- Two approvals are too many.
too_many : review org 9 (λ id. approves) tables ≡ (tables, refused)
unfolding review review_shown is_full member_count is_shown
too_many = refl
