-- ===== src/Rollup.antt =====
-- The rollup of a session: its prompt, its store, the reply of the model, and the pass over the turns.
pub mod Texts
pub mod Decimal
pub mod Prompt
pub mod Dropping
pub mod Shrinking
pub mod Batching
pub mod Budget
pub mod Decisions
pub mod Keyed
pub mod Origins
pub mod Sorting
pub mod Again
pub mod Union
pub mod Rows
pub mod Store
pub mod Updates
pub mod Watermark
pub mod Reply
pub mod Candidates
pub mod TurnIndex
pub mod Attribution
pub mod Placed
pub mod Listing
pub mod Reached
pub mod Carry
pub mod Carried
pub mod CarryLoops
pub mod Pass
pub mod Files
pub mod Batch
pub mod Service
pub mod Progress
pub mod Passes
pub mod Indices
pub mod Fresh
pub mod Sessions
pub mod Examples
pub mod Scenarios
mod Families
