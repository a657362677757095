-- ===== src/Kmem.antt =====
-- kmem.c and kmem.h: the kernel's allocator of variable-size chunks.
pub mod State
pub mod Init
pub mod Cleanup
pub mod Malloc
pub mod Free
pub mod Report
pub mod Chain
pub mod Lists
pub mod Members
pub mod Sound
pub mod Own
pub mod Bounds
pub mod Layout
pub mod Requests
mod Tests
