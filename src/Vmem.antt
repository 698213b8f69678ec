-- ===== src/Vmem.antt =====
-- The virtual memory system, ip6/lib/vmem.
pub mod Disk
pub mod Dll
pub mod Backing
pub mod Fault
pub mod Flush
pub mod Signal
pub mod Threads
pub mod Hash
pub mod Lru
pub mod Mem
pub mod PageTable
pub mod Policies
pub mod Raid
pub mod Rand
pub mod Rmem
pub mod Policy
mod Tests
pub mod Trace
