-- ===== src/Tests.antt =====
-- Small inputs, what the definitions give on them, and the theorems applied to them.
mod Bridge
mod Wire
mod Packets
mod Handler
mod JudgeApi
mod Comments
mod Organization
mod ProblemData
mod Grading
mod Contest
mod Problem
mod Submitting
mod Course
mod Format
mod Ecoo
mod Profile
mod TwoFactor
mod Ranking
mod Ticket
mod InfinitePage
mod Ratings
mod Paginator
