-- ===== src/Edu.antt =====
-- The thread pool: pmd/pmdEDUMgr.cpp, pmd/pmdEDU.cpp and their headers. An EDU is a thread with a control
-- block; the manager keeps the control blocks of the running and the pooled threads in two maps.
pub mod OrderedMap
pub mod Block
pub mod Manager
pub mod Pool
pub mod Force
pub mod Forced
pub mod Invariant
pub mod Change
pub mod Table
pub mod Step
pub mod Waited
pub mod Reach
pub mod Return
pub mod Start
pub mod Started
pub mod Lost
pub mod Shutdown
pub mod Thread
pub mod Registry
