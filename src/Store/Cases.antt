-- ===== src/Store/Cases.antt =====
-- Rules for proofs about the methods of the store (memory.go), one for each way a call can end.
pub mod Owners
pub mod Hosts
pub mod Hooks
pub mod Tokens
pub mod Jobs
pub mod Claims
pub mod Published
