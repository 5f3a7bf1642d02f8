-- ===== src/Lib.antt =====
-- A model of the core of this online judge, in which users submit programs, judges on other
-- machines grade them, and contests and courses rank the users.
--
-- The parts and how they interact. The bridge (judge/bridge) is a server that keeps the
-- connections of the judges. The site sends it submissions (from ProblemSubmit in judge/views/problem.py, by judge/judgeapi.py);
-- JudgeList gives each to a free judge
-- or puts it in a queue with priorities, and when a judge says that it is free, JudgeList gives it
-- the next submission that it can grade. JudgeHandler reads the packets of one judge and, when
-- the grading ends, adds up the test cases. The models (judge/models) hold the rules on who may
-- see, join and edit problems, contests and courses. A contest format (judge/contest_format)
-- turns the submissions of a participation into its score, its time and its tiebreaker, by which
-- participations are ranked; judge/ratings.py turns that order into ranks. The test data that the
-- judges grade with is described by an init.yml, which judge/utils/problem_data.py compiles from the
-- rows of a problem's test cases. Users belong to organizations, which problems and contests may be
-- private to, and vote on comments (judge/views).
--
-- The files:
--   Prelude, Prelude/*: the shared names, lists with Boolean tests, association lists.
--   Bridge/Judge: judge/bridge/judge_handler.py, what JudgeList reads of a JudgeHandler, and submit.
--   Bridge/Queue: the linked list of submissions and priority markers of judge/bridge/judge_list.py;
--     Queue/Classes and Queue/Spots are its lemmas.
--   Bridge/JudgeList: judge/bridge/judge_list.py, class JudgeList, one function for each method;
--     State, Linked, Steps: its invariant under all operations; Choice: which judge is chosen;
--     Judging, Freeing: what judge, handle_free_judge, abort and disconnect do.
--   Bridge/Wire: judge/bridge/base_handler.py, the socket as bytes, and packets with their sizes;
--     Proxy: the PROXY header and the loops of handle; Frames, Streams, Faults: what it delivers
--     and how it fails.
--   Store: the tables of judge/models/submission.py that the site and the bridge write.
--   Bridge/Session, Bridge/TestCases, Bridge/Packets: judge/bridge/judge_handler.py, its state, the
--     results of test cases and the other handlers of packets; Packets/Throttle, Isolation, Cases
--     and Fates: what a packet leaves.
--   Bridge/Handler: judge/bridge/judge_handler.py, the handshake; Leaving: new problems, loads and the
--     end of a connection; Handshake, Departure: what they check and leave; Runtimes:
--     Judge.runtime_versions in judge/models/runtime.py.
--   Bridge/DjangoHandler: judge/bridge/django_handler.py, the requests of the site.
--   JudgeApi: judge/judgeapi.py and Submission.judge; Requests: what the site and the bridge hold
--     afterwards.
--   Grading: judge/bridge/judge_handler.py, the status bits in on_test_case and the sums in
--     on_grading_end; Rounding: Python's round on exact fractions; Verdicts, Points: its lemmas.
--   Viewer: the user of a request, with the answers of Django's permission system as a function.
--   Problem: judge/models/problem.py, the methods on access and the queries by access.
--   Problem/Submitting: judge/views/problem.py, ProblemSubmit, the limits on submissions; View: the
--     form, the checks and the request from dispatch to Submission.judge; Accepted, Limit: what an
--     accepted submission has passed and becomes, and the limit of a contest problem.
--   ProblemData: judge/utils/problem_data.py, class ProblemDataCompiler: the branches of the loop in
--     make_init; Compiler: make_init and compile; Shape, Steps, Outcome, Acceptance,
--     Success: what they give.
--   Comments: judge/views/comment.py, vote_comment; Tally, Undo: the scores and the votes.
--   Organization: judge/views/organization.py, joining, leaving and the review of requests; Slots.
--   Submission: judge/models/submission.py, who sees a submission, and its points in a contest.
--   Contest: judge/models/contest.py, class Contest; Participation and Disqualified: class
--     ContestParticipation; Joining: join_contest in judge/views/contests.py.
--   Course: judge/models/course.py, and Course/Joining: join_course in judge/views/courses.py, which
--     repeat the code of contests for courses.
--   Profile: judge/models/profile.py, the current contest and course, and two-factor codes.
--   TwoFactor: judge/middleware.py, DMOJLoginMiddleware and APIMiddleware; Forms: the forms for codes
--     in judge/forms.py; Views: judge/views/two_factor.py, each request behind both middlewares, in
--     the order of dmoj/settings.py; Guarded, Flags, Staff, Scratch, Tokens: what requests can do
--     before the second factor, and what they leave of the account.
--   Format: update_participation in default.py, legacy_ioi.py, atcoder.py and icpc.py of
--     judge/contest_format, and in Ecoo of ecoo.py; Labels: the labels of problems in icpc.py.
--   Ratings: judge/ratings.py, tie_ranker.
--   Paginator: judge/utils/diggpaginator.py, the page ranges.
--   InfinitePage: judge/utils/infinite_paginator.py; Pages: which pages there are.
--   Ranking: judge/utils/ranker.py, with the order of judge/views/contests.py; Places.
--   Ticket: judge/views/ticket.py and judge/utils/tickets.py; Listing, Opening.
--   Tests, Tests/*: small inputs, what the definitions give on them, and the theorems applied.
--
-- State and data. A record has the fields that the modelled methods read or write. An id is a
-- number, a foreign key is the id, a many-to-many field is a list of ids, a dictionary is an
-- association list, and a time is a number of seconds, in the
-- bridge of milliseconds. Methods that change an object are functions
-- to the changed record. Points, times and loads are numbers of a smallest unit; floating-point
-- results are computed exactly, and where the source rounds to a contest's precision the rounding
-- is an argument. A query is a filter over the list of rows.
--
-- Fuel. JudgeList.judge calls itself after a failed dispatch; two turns are enough, because the
-- submission is known on the second. The loop of the ICPC labels has index + 1 turns, and each
-- makes the index smaller. The loops over the socket have fuel, and running out of it is the result
-- endless; fuel above the length of each packet and the number of the packets is enough, because
-- every recv returns a byte or ends the connection. All other loops are recursions on lists.
--
-- Parameters. zlib, json.loads, the test of a client against the proxies, how the socket cuts the
-- bytes, whether the connection of a request to the bridge fails, the choice among equally loaded
-- judges (random in the source), the failures of a dispatch, the permissions, the current time,
-- pyotp's and webauthn's checks, hmac with the test for ASCII that it makes of keys, what the text
-- fields of Django's forms strip and take, and the order in which the database gives groups are
-- arguments.
--
-- Not modelled: threads, races between requests, the averages of the pings of judges, the
-- statistics that are computed when a grading ends, the format IOI, the floating-point
-- part of the ratings, the other forms, the pages and the administration, clients of other services,
-- settings and migrations.
pub mod Prelude
pub mod Bridge
pub mod Grading
pub mod Store
pub mod JudgeApi
pub mod Submission
pub mod Organization
pub mod Comments
pub mod ProblemData
pub mod Viewer
pub mod Problem
pub mod Profile
pub mod TwoFactor
pub mod Format
pub mod Ratings
pub mod Ranking
pub mod Ticket
pub mod Labels
pub mod Paginator
pub mod InfinitePage
pub mod Contest
pub mod Course
mod Tests
