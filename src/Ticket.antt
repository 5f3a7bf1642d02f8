-- ===== src/Ticket.antt =====
-- judge/views/ticket.py and judge/utils/tickets.py: who may open a ticket, the list of tickets, and
-- what opening, answering, closing and annotating one does.
pub mod Listing
pub mod Opening
use study_sys.Prelude.{
  ℕ, ◌+◌, Bool, true, false, ◌&&◌, ◌||◌, not, Option, none, some, List, [], ◌∷◌, String, str_eq,
  ◌==◌, if◌then◌else◌, elem, keep, any,
}
use study_sys.Viewer.{Viewer, change_ticket, meets}
use study_sys.Problem.{Problem, is_accessible_by, is_editable_by, is_listed_editable}

-- The item that a ticket is about: the generic foreign key points to a problem or to something else.
pub data Linked : Type 0 where
  problem : Problem → Linked
  something_else : Linked

pub record Ticket : Type 0 where
  pub id : ℕ
  pub title : String
  pub user : ℕ
  pub assignees : List ℕ
  pub notes : String
  pub linked_item : Linked
  pub is_open : Bool

pub record Message : Type 0 where
  pub ticket : ℕ
  pub user : ℕ
  pub body : String

pub record Tables : Type 0 where
  pub tickets : List Ticket
  pub messages : List Message
  pub next_id : ℕ

-- `own_ticket_filter`
unfoldable pub is_own : ℕ → Ticket → Bool
is_own profile t = elem profile t.assignees || t.user == profile

abbrev pub edits_linked : Viewer → Linked → Bool
edits_linked user (problem p) = is_editable_by user p
edits_linked user something_else = false

-- `TicketMixin.get_object`: true lets the request on, and false is PermissionDenied.
unfoldable pub may_open : Viewer → Ticket → Bool
unfolding is_editable_by
may_open user t =
    if user.has_perm change_ticket
    then true
    else if t.user == user.id
    then true
    else if elem user.id t.assignees
    then true
    else if edits_linked user t.linked_item
    then true
    else false

-- The row filter of `filter_visible_tickets`: the query over the problems that the user may edit.
abbrev pub is_linked_editable : Viewer → Linked → Bool
is_linked_editable user (problem p) = is_listed_editable user p
is_linked_editable user something_else = false

unfoldable pub is_visible : Viewer → Ticket → Bool
unfolding is_own is_listed_editable
is_visible user t = is_own user.id t || is_linked_editable user t.linked_item

-- The parameters of `TicketList`; the filters are lists of profiles, and an empty one is off.
pub record Filters : Type 0 where
  pub only_open : Bool
  pub own : Bool
  pub assignees : List ℕ
  pub users : List ℕ

abbrev pub is_off : List ℕ → Bool
is_off [] = true
is_off (x ∷ xs) = false

abbrev pub passes_filters : Filters → Ticket → Bool
passes_filters f t =
    (not f.only_open || t.is_open)
    && (is_off f.assignees || meets t.assignees f.assignees)
    && (is_off f.users || elem t.user f.users)

abbrev pub is_in_scope : Viewer → Filters → Ticket → Bool
is_in_scope user f t =
    if f.own
    then is_own user.id t
    else if not (user.has_perm change_ticket)
    then is_visible user t
    else true

-- `TicketList.get_queryset`
unfoldable pub get_queryset : Viewer → Filters → List Ticket → List Ticket
unfolding is_visible is_own
get_queryset user f rows = keep (λ t. is_in_scope user f t && passes_filters f t) rows

pub data Response : Type 0 where
  created : ℕ → Response
  done no_content not_found denied invalid : Response

-- What the form reads of the user, and the contest that the user is in: its authors, and whether it
-- has the problem.
pub record Asker : Type 0 where
  pub viewer : Viewer
  pub mute : Bool
  pub has_any_solves : Bool
  pub contest : Option (List ℕ × Bool)

abbrev pub in_contest : Asker → Bool
in_contest u = elim u.contest [ none ↦ false | some c ↦ true ]

-- What Django's CharField does: `strip` takes the blanks off the ends of a text, and `is_short` says
-- that a title has at most 100 characters.
pub record CharField : Type 0 where
  pub strip : String → String
  pub is_short : String → Bool

-- A field that is required.
abbrev pub is_filled : CharField → String → Bool
is_filled f s = not (str_eq (f.strip s) "")

-- The fields of `TicketForm`.
unfoldable pub has_fields : CharField → (title body : String) → Bool
has_fields f title body = is_filled f title && f.is_short (f.strip title) && is_filled f body

-- `TicketForm.clean`
unfoldable pub is_clean : Asker → Bool
is_clean u = not u.mute && (in_contest u || u.has_any_solves)

-- `NewProblemTicketView.get_assignees`
abbrev pub assignees_in : Option (List ℕ × Bool) → Problem → List ℕ
assignees_in none p = p.authors
assignees_in (some (authors, has_problem)) p = if has_problem then authors else p.authors

abbrev pub has_problem : Asker → Bool
has_problem u = elim u.contest [ none ↦ false | some c ↦ c.1 ]

abbrev pub new_ticket : Asker → Problem → String → ℕ → Ticket
new_ticket u p title id = record {
  id = id;
  title = title;
  user = u.viewer.id;
  assignees = assignees_in u.contest p;
  notes = "";
  linked_item = problem p;
  is_open = true;
}

-- The post of `NewProblemTicketView`: the problem is looked up with its check, the form is cleaned,
-- and `form_valid` checks the problem again.
unfoldable pub post_new :
    CharField → Asker → Problem → (title body : String) → Tables → Tables × Response
unfolding is_clean has_fields is_accessible_by
post_new f u p title body t =
    if not (is_accessible_by (has_problem u) false u.viewer p)
    then (t, not_found)
    else if not (has_fields f title body && is_clean u)
    then (t, invalid)
    else (
      record {
        tickets = new_ticket u p (f.strip title) t.next_id ∷ t.tickets;
        messages =
            record { ticket = t.next_id; user = u.viewer.id; body = f.strip body } ∷ t.messages;
        next_id = t.next_id + 1;
      },
      created t.next_id,
    )

unfoldable pub find_ticket : ℕ → List Ticket → Option Ticket
find_ticket id [] = none
find_ticket id (t ∷ ts) = if t.id == id then some t else find_ticket id ts

abbrev pub update_ticket : ℕ → (Ticket → Ticket) → List Ticket → List Ticket
update_ticket id f [] = []
update_ticket id f (t ∷ ts) = (if t.id == id then f t else t) ∷ update_ticket id f ts

-- A view on one ticket, behind `get_object`.
abbrev pub on_ticket :
    Viewer → Option Ticket → (Ticket → Tables × Response) → Tables → Tables × Response
on_ticket user none act t = (t, not_found)
on_ticket user (some ticket) act t = if may_open user ticket then act ticket else (t, denied)

-- The post of `TicketView`: `TicketCommentForm`, then `form_valid`.
abbrev pub add_message : CharField → Viewer → ℕ → String → Tables → Tables × Response
add_message f user id body t = if not (is_filled f body) then (t, invalid) else (
  record t { messages = record { ticket = id; user = user.id; body = f.strip body } ∷ t.messages },
  done,
)

unfoldable pub post_message : CharField → Viewer → ℕ → String → Tables → Tables × Response
unfolding may_open find_ticket
post_message f user id body t =
    on_ticket user (find_ticket id t.tickets) (λ ticket. add_message f user id body t) t

-- `TicketStatusChangeView.post`: it saves only a change.
abbrev pub differs : Bool → Bool → Bool
differs true b = not b
differs false b = b

abbrev pub set_status : Bool → ℕ → Tables → Ticket → Tables × Response
set_status is_open id t ticket =
    if differs ticket.is_open is_open
    then (
      record t { tickets = update_ticket id (λ x. record x { is_open = is_open }) t.tickets },
      no_content,
    )
    else (t, no_content)

unfoldable pub post_status : Bool → Viewer → ℕ → Tables → Tables × Response
unfolding may_open find_ticket
post_status is_open user id t =
    on_ticket user (find_ticket id t.tickets) (set_status is_open id t) t

-- `TicketNotesEditView.form_valid`; the notes are not required.
unfoldable pub post_notes : CharField → Viewer → ℕ → String → Tables → Tables × Response
unfolding may_open find_ticket
post_notes f user id notes t =
    on_ticket user (find_ticket id t.tickets)
      (λ ticket. (
        record t { tickets = update_ticket id (λ x. record x { notes = f.strip notes }) t.tickets },
        done,
      ))
      t
