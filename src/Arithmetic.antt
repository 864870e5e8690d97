-- ===== src/Arithmetic.antt =====
-- src/runtime/arithmetic.cpp: `$((...))`. Words has its 64-bit operations, State the evaluator object
-- and what its helpers do to it, Parser the grammar. The theorems are in Returns and Whole.
pub mod Words
pub mod State
pub mod Parser
pub mod Follows
pub mod Steps
pub mod Done
pub mod Ends
pub mod Upper
pub mod Lower
pub mod Total
pub mod Returns
pub mod Gives
pub mod Trees
pub mod Operands
pub mod Enders
pub mod Climb
pub mod Rise
pub mod Atoms
pub mod Doing
pub mod Did
pub mod Symbols
pub mod Groups
pub mod Printed
pub mod Whole
