-- ===== src/Tests.antt =====
-- Concrete runs of the theorems.
mod Objects
mod Blank
mod Dms
mod Edu
mod FileOp
mod Msg
mod Socket
mod Agent
mod Store
mod Reopened
mod MmapFile
mod Process
mod Listener
mod Client
