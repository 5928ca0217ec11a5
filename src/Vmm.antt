-- ===== src/Vmm.antt =====
-- kernel/src/vmm.c: the virtual memory manager.
pub mod Align
pub mod Paging
pub mod Region
mod Boot
mod Tests
