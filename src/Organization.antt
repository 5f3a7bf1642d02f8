-- ===== src/Organization.antt =====
-- judge/views/organization.py: joining and leaving organizations, kicking members, and the review of
-- the requests to join. `members` has a row (user, organization), and `students` one (user, class).
pub mod Slots
use study_sys.Prelude.{
  ℕ, ◌+◌, Bool, true, false, not, ◌&&◌, ◌||◌, Option, none, some, List, [], ◌∷◌, ◌==◌, leb, ltb,
  if◌then◌else◌, any, keep, count, elem, map,
}

pub data State : Type 0 where
  pending approved rejected : State

-- A row of `OrganizationRequest`.
pub record OrganizationRequest : Type 0 where
  pub id : ℕ
  pub user : ℕ
  pub organization : ℕ
  pub state : State
  pub request_class : Option ℕ

-- A row of `Class`, with its admins.
pub record Class : Type 0 where
  pub id : ℕ
  pub organization : ℕ
  pub admins : List ℕ

pub record Organization : Type 0 where
  pub id : ℕ
  pub is_open : Bool
  pub slots : Option ℕ
  pub admins : List ℕ

pub record Tables : Type 0 where
  pub organizations : List Organization
  pub classes : List Class
  pub members : List (ℕ × ℕ)
  pub students : List (ℕ × ℕ)
  pub requests : List OrganizationRequest

pub data Response : Type 0 where
  success refused denied : Response

abbrev pub is_row : ℕ → ℕ → ℕ × ℕ → Bool
is_row user org m = m.0 == user && m.1 == org

-- `filter(id=…).exists()` on a relation, and its `add` and `remove`
abbrev pub is_member : ℕ → ℕ → List (ℕ × ℕ) → Bool
is_member user org ms = any (is_row user org) ms

unfoldable pub add_member : ℕ → ℕ → List (ℕ × ℕ) → List (ℕ × ℕ)
add_member user org ms = if is_member user org ms then ms else (user, org) ∷ ms

unfoldable pub remove_member : ℕ → ℕ → List (ℕ × ℕ) → List (ℕ × ℕ)
remove_member user org ms = keep (λ m. not (is_row user org m)) ms

-- `organization.members.count()`
unfoldable pub member_count : ℕ → List (ℕ × ℕ) → ℕ
member_count org ms = count (λ m. m.1 == org) ms

-- `profile.organizations.filter(is_open=True).count()`
unfoldable pub open_count : ℕ → List Organization → List (ℕ × ℕ) → ℕ
open_count user orgs ms = count (λ o. o.is_open && is_member user o.id ms) orgs

-- `JoinOrganization.handle`
unfoldable pub join : ℕ → Organization → ℕ → Tables → Tables × Response
unfolding add_member open_count
join max_orgs org user t =
    if is_member user org.id t.members
    then (t, refused)
    else if not org.is_open
    then (t, refused)
    else if leb max_orgs (open_count user t.organizations t.members)
    then (t, refused)
    else (record t { members = add_member user org.id t.members }, success)

-- `LeaveOrganization.handle`
unfoldable pub leave : Organization → ℕ → Tables → Tables × Response
unfolding remove_member
leave org user t =
    if is_member user org.id t.members
    then (record t { members = remove_member user org.id t.members }, success)
    else (t, refused)

-- `KickUserWidgetView.post`, for a user that exists
unfoldable pub kick : Organization → ℕ → ℕ → Tables → Tables × Response
unfolding remove_member
kick org viewer user t =
    if not (elem viewer org.admins)
    then (t, refused)
    else if not (is_member user org.id t.members)
    then (t, refused)
    else (record t { members = remove_member user org.id t.members }, success)

-- What the form of a request says of it.
pub data Decision : Type 0 where
  keeps approves rejects deletes : Decision

abbrev pub is_approval : Decision → Bool
is_approval approves = true
is_approval _ = false

abbrev pub is_pending : State → Bool
is_pending pending = true
is_pending _ = false

-- `can_review_class_requests`, and the classes that the viewer administers
abbrev pub administers : ℕ → Organization → Class → Bool
administers viewer org c = c.organization == org.id && elem viewer c.admins

abbrev pub in_class : Option ℕ → Class → Bool
in_class none c = false
in_class (some k) c = c.id == k

-- `get_requests` of the pending requests
unfoldable pub is_shown : Bool → ℕ → Organization → List Class → OrganizationRequest → Bool
is_shown edit_all viewer org classes r =
    r.organization == org.id
    && is_pending r.state
    && (edit_all || any (λ c. administers viewer org c && in_class r.request_class c) classes)

-- A form that approves its request.
abbrev pub is_approved : (OrganizationRequest → Bool) → (ℕ → Decision) → OrganizationRequest → Bool
is_approved shown decide r = shown r && is_approval (decide r.id)

-- `formset.save()`, on the requests
unfoldable pub decided :
    Decision → OrganizationRequest → List OrganizationRequest → List OrganizationRequest
decided keeps r rs = r ∷ rs
decided approves r rs = record r { state = approved } ∷ rs
decided rejects r rs = record r { state = rejected } ∷ rs
decided deletes r rs = rs

unfoldable pub save_forms :
    (OrganizationRequest → Bool)
    → (ℕ → Decision)
    → List OrganizationRequest
    → List OrganizationRequest
unfolding decided
save_forms shown decide [] = []
save_forms shown decide (r ∷ rs) =
    let rest = save_forms shown decide rs in
    if shown r then decided (decide r.id) r rest else r ∷ rest

abbrev pub add_student : ℕ → Option ℕ → List (ℕ × ℕ) → List (ℕ × ℕ)
add_student user none cs = cs
add_student user (some k) cs = add_member user k cs

-- The loop over the saved requests: those that are approved add a member.
unfoldable pub add_approved :
    (OrganizationRequest → Bool)
    → (ℕ → Decision)
    → List OrganizationRequest
    → List (ℕ × ℕ)
    → List (ℕ × ℕ)
unfolding add_member
add_approved shown decide [] ms = ms
add_approved shown decide (r ∷ rs) ms =
    add_approved shown decide rs
      (if is_approved shown decide r then add_member r.user r.organization ms else ms)

unfoldable pub add_classes :
    (OrganizationRequest → Bool)
    → (ℕ → Decision)
    → List OrganizationRequest
    → List (ℕ × ℕ)
    → List (ℕ × ℕ)
unfolding add_member
add_classes shown decide [] cs = cs
add_classes shown decide (r ∷ rs) cs =
    add_classes shown decide rs
      (if is_approved shown decide r then add_student r.user r.request_class cs else cs)

-- `to_approve > can_add`, where `can_add` may be negative
unfoldable pub is_full : Option ℕ → ℕ → ℕ → Bool
is_full none to_approve members = false
is_full (some slots) to_approve members = ltb slots (to_approve + members)

unfoldable pub save_decisions : (OrganizationRequest → Bool) → (ℕ → Decision) → Tables → Tables
unfolding save_forms add_approved add_classes
save_decisions shown decide t = record t {
  members = add_approved shown decide t.requests t.members;
  students = add_classes shown decide t.requests t.students;
  requests = save_forms shown decide t.requests;
}

unfoldable pub review_shown :
    Organization → (OrganizationRequest → Bool) → (ℕ → Decision) → Tables → Tables × Response
unfolding save_decisions is_full member_count
review_shown org shown decide t =
    if is_full org.slots (count (is_approved shown decide) t.requests)
      (member_count org.id t.members)
    then (t, refused)
    else (save_decisions shown decide t, success)

-- `OrganizationRequestView.post`, for a formset that is valid
unfoldable pub review : Organization → ℕ → (ℕ → Decision) → Tables → Tables × Response
unfolding review_shown is_shown
review org viewer decide t =
    if elem viewer org.admins
    then review_shown org (is_shown true viewer org t.classes) decide t
    else if any (administers viewer org) t.classes
    then review_shown org (is_shown false viewer org t.classes) decide t
    else (t, denied)
