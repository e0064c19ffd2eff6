-- ===== src/Scheduler.antt =====
-- The encounter scheduler, src/aethos_core/encounter_scheduler.rs: a budget and a list of cargo
-- items are validated, the items that have not expired are scored and ranked, and the longest
-- prefix of the ranking that fits the budget is selected.
--   Float     the f64 operations that the scores use, a parameter
--   Types     the data of the scheduler
--   Validate  `validate_budget`, `validate_and_filter_eligible`
--   Score     `score`
--   Rank      `ranks_before`, `tie_break_reason_between`, the ranking loop
--   Select    the selection loop
--   Plan      `schedule`
pub mod Float
pub mod Types
pub mod Validate
pub mod Score
pub mod Rank
pub mod Select
pub mod Plan
mod Examples
