-- ===== src/Bridge.antt =====
-- The bridge: the process that keeps the connections to the judges and hands submissions to them
-- (judge/bridge).
pub mod Judge
pub mod Queue
pub mod JudgeList
pub mod Wire
pub mod Session
pub mod TestCases
pub mod Packets
pub mod DjangoHandler
pub mod Handler
