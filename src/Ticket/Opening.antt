-- ===== src/Ticket/Opening.antt =====
-- A ticket that is made, and its status.
use study_sys.Viewer.{Viewer}
use study_sys.Problem.{Problem}
use study_sys.Ticket.{Ticket}
