-- ===== src/Process.antt =====
-- user/process.c, arch/x86/user/process.c and the timer handler of arch/x86/dt/idt_x86.c: processes
-- and their scheduling. Structures lie in stores indexed by pointers, 0 is `NULL`, and reading
-- through `NULL` or a dangling pointer is a fault.
pub mod State
pub mod Ops
pub mod Chain
pub mod Lookup
pub mod Unlink
pub mod Remove
pub mod Start
pub mod Image
pub mod Load
pub mod Tick
pub mod Schedule
mod Tests
