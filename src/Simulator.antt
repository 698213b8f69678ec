-- ===== src/Simulator.antt =====
-- legacy/OldPageTable/experiment: the simulator of a page table with a choice of replacement policies.
pub mod Clock
pub mod Fifo
pub mod Lru
pub mod Opt
pub mod Bitmap
pub mod Paging
mod Tests
