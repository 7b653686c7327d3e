-- ===== src/Dms.antt =====
-- The record store: include/dms.hpp, include/dmsRecord.hpp and dms/dms.cpp.
pub mod Layout
pub mod FreeSpace
pub mod Page
pub mod File
pub mod Extend
pub mod Insertion
pub mod Open
pub mod History
