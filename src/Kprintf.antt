-- ===== src/Kprintf.antt =====
-- kprintf.c: the kernel's formatted print.
pub mod Digits
pub mod Number
pub mod Spec
pub mod Print
mod Tests
