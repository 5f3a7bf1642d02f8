-- ===== src/Ticket/Listing.antt =====
-- The list of tickets and the check of a single one.
use study_sys.Prelude.{
  ap, any-append, true, false, ◌&&◌, List, [], ◌∷◌, ◌≡◌, refl, arith, keep, ◌==◌, if◌then◌else◌,
}
use study_sys.Viewer.{Viewer}
use study_sys.Problem.{is_editable_by, editor_ids, is_listed_editable}
use study_sys.Ticket.{
  Ticket, Linked, problem, something_else, Filters, edits_linked, is_linked_editable, is_own,
  may_open, is_visible, is_in_scope, passes_filters, get_queryset,
}

edits_linked-eq :
    (user : Viewer) (l : Linked)
    → user.is_authenticated ≡ true
    → is_linked_editable user l ≡ edits_linked user l
unfolding is_listed_editable is_editable_by editor_ids
edits_linked-eq user something_else signed_in = refl
edits_linked-eq user (problem p) signed_in =
    ground (arith, signed_in, any-append (λ x. x == user.id) p.authors p.curators)

scope-eq :
    (user : Viewer) (f : Filters) (t : Ticket)
    → user.is_authenticated ≡ true
    → f.own ≡ false
    → is_in_scope user f t ≡ may_open user t
unfolding is_visible is_own may_open
scope-eq user f t signed_in all_tickets =
    ground (arith, all_tickets, edits_linked-eq user t.linked_item signed_in)

-- The list that is not restricted to one's own tickets shows a signed-in user the tickets that pass
-- the filters and that the check of a single ticket lets the user open, and no others.
pub get_queryset-may_open :
    (user : Viewer) (f : Filters) (rows : List Ticket)
    → user.is_authenticated ≡ true
    → f.own ≡ false
    → get_queryset user f rows ≡ keep (λ t. may_open user t && passes_filters f t) rows
unfolding get_queryset
get_queryset-may_open user f [] signed_in all_tickets = refl
get_queryset-may_open user f (t ∷ rows) signed_in all_tickets =
    rw (scope-eq user f t signed_in all_tickets) (
      ap (λ rest. if may_open user t && passes_filters f t then t ∷ rest else rest)
        (get_queryset-may_open user f rows signed_in all_tickets))
