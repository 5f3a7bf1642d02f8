-- ===== src/Tests/JudgeApi.antt =====
-- The site with two submissions, and a bridge with two judges.
use study_sys.Prelude.{false, none}
use study_sys.Bridge.JudgeList.{init}
use study_sys.JudgeApi.{Site, Job}
use study_sys.Tests.Bridge.{pair, request, waiting}
use study_sys.Tests.Packets.{tables}

abbrev pub site : Site
site = record { store = tables; judges = init pair }

abbrev job : Job
job = record { request = request 8; rejudge = false; batch_rejudge = false; contest = none }

abrupt : Site
abrupt = record { store = tables; judges = waiting }
