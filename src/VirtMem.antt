-- ===== src/VirtMem.antt =====
-- arch/x86/mem/virt_mem_mgr_x86.c: page tables and address spaces.
pub mod Entry
pub mod State
pub mod Ops
pub mod Spaces
pub mod Create
pub mod Directory
pub mod Copy
pub mod Share
pub mod Supply
pub mod PageFault
mod Tests
mod CreateTests
pub mod Init
pub mod Words
pub mod Delete
pub mod Contiguous
pub mod Heap
pub mod HeapFree
pub mod Release
pub mod Range
pub mod Backed
pub mod SetPte
pub mod Grow
pub mod Clear
pub mod Fresh
pub mod Store
pub mod Frame
pub mod Walk
pub mod Through
pub mod Scratch
pub mod Pages
pub mod Search
