-- ===== src/Tests/Ticket.antt =====
-- A contestant who asks about a problem of the contest.
use study_sys.Prelude.{◌≡◌, refl, true, false, some, [], ◌∷◌, keep, ◌&&◌}
use study_sys.Ticket.{
  CharField, Ticket, Tables, Asker, Filters, may_open, passes_filters, get_queryset, new_ticket,
  post_new, post_status, denied,
}
use study_sys.Ticket.Listing.{get_queryset-may_open}
use study_sys.Tests.Contest.{user}
use study_sys.Tests.Problem.{sorting}

abbrev field : CharField
field = record { strip = λ s. s; is_short = λ s. true }

abbrev asker : Asker
asker = record {
  viewer = user 12 (5 ∷ []);
  mute = false;
  has_any_solves = false;
  contest = some (20 ∷ [], true);
}

abbrev no_tickets : Tables
no_tickets = record { tickets = []; messages = []; next_id = 1 }

abbrev question : Ticket
question = new_ticket asker sorting "Typo" 1

abbrev all_open : Filters
all_open = record { only_open = true; own = false; assignees = []; users = [] }

stranger_denied :
    (post_status false
      (user 13 [])
      1
      (post_new field asker sorting "Typo" "n or m?" no_tickets).0).1
    ≡ denied
unfolding post_new post_status
stranger_denied = refl

get_queryset-may_open_example :
    get_queryset (user 20 []) all_open (question ∷ [])
    ≡ keep (λ t. may_open (user 20 []) t && passes_filters all_open t) (question ∷ [])
get_queryset-may_open_example =
    get_queryset-may_open (user 20 []) all_open (question ∷ []) refl refl
