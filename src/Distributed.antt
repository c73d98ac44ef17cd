-- ===== src/Distributed.antt =====
-- internal/distributed/executor.go: a query that is sent to search nodes and the merging of what
-- they answer.
pub mod Merge
pub mod Execute
pub mod Rounds
pub mod Loop
pub mod Completing
pub mod Coverage
pub mod Answers
pub mod Sample
mod Tests
