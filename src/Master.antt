-- ===== src/Master.antt =====
-- The master's bookkeeping: ccoip/internal_include/ccoip_master_state.hpp and
-- ccoip/src/cpp/ccoip_master_state.cpp.
pub mod State
pub mod Votes
pub mod Consensus
pub mod Loop
pub mod Phases
pub mod Registry
pub mod SharedState
pub mod Ring
pub mod Reports
pub mod Optimization
pub mod Audit
pub mod Invariant
pub mod Abort
pub mod Outcomes
pub mod Admission
pub mod Progress
pub mod Steps
